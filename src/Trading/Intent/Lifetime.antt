-- ===== src/Trading/Intent/Lifetime.antt =====
-- An intent from its creation to its broadcast.
use hood_sentry.Prelude.{
  ℕ, ◌+◌, ◌*◌, ◌≤◌, ◌<◌, ◌≡◌, ap, ◌↔◌, true, none, some, List, [], ◌∷◌, ◌++◌, arith, ltb,
  if◌then◌else◌, take,
}
use hood_sentry.Prelude.Int.{pos, ◌≤ℤ◌}
use hood_sentry.Prelude.Codes.{same_text, same_text_refl}
use hood_sentry.Trading.Intent.{
  IntentRequest, TransactionIntent, IntentProvider, IntentAuditEvent, Refusal, refused, intent,
  make_intent, refusal, created_event, create, validate_for_broadcast, expired,
}

-- What a request must be for an intent to be made of it.
pub record IsAllowed (p : IntentProvider) (r : IntentRequest) : Type 0 where
  pub enabled : p.is_feature_enabled r.feature_flag ≡ true
  pub lives : (1 ≤ r.ttl_seconds) × (r.ttl_seconds ≤ 300)
  pub target : p.is_target_allowed r.target r.chain_id ≡ true
  pub selector : p.is_selector_allowed r.target r.function_selector ≡ true
  pub calls : same_text (take 10 r.calldata) r.function_selector ≡ true
  pub pays : pos 0 ≤ℤ r.native_value
  pub simulated : (p.simulate r).success ≡ true

refusal-none :
    (p : IntentProvider) (r : IntentRequest)
    → refusal p r ≡ none
    → (p.is_feature_enabled r.feature_flag ≡ true)
      × (1 ≤ r.ttl_seconds)
      × (r.ttl_seconds ≤ 300)
      × (p.is_target_allowed r.target r.chain_id ≡ true)
      × (p.is_selector_allowed r.target r.function_selector ≡ true)
      × (same_text (take 10 r.calldata) r.function_selector ≡ true)
      × (pos 0 ≤ℤ r.native_value)
unfolding refusal
refusal-none p r e = ground arith

created_intent :
    (p : IntentProvider) (r : IntentRequest) (now : ℕ) (events : List IntentAuditEvent)
    (i : TransactionIntent)
    → (create p r now events).0 ≡ intent i
    → (refusal p r ≡ none)
      × (i ≡ make_intent p r now)
      × ((p.simulate r).success ≡ true)
      × ((create p r now events).1 ≡ events ++ created_event i ∷ [])
unfolding create make_intent
created_intent p r now events i e = ground arith

-- If the creation is refused, nothing was recorded.
pub create-refused :
    (p : IntentProvider) (r : IntentRequest) (now : ℕ) (events : List IntentAuditEvent)
    (e : Refusal)
    → (create p r now events).0 ≡ refused e
    → (create p r now events).1 ≡ events
unfolding create make_intent
create-refused p r now events e h = ground arith

-- If a creation gives an intent, it is of the request, which passes every test and whose simulation
-- succeeded, it lives for one to 300 seconds from now, and one event was recorded, its creation.
pub create-intent :
    (p : IntentProvider) (r : IntentRequest) (now : ℕ) (events : List IntentAuditEvent)
    (i : TransactionIntent)
    → (create p r now events).0 ≡ intent i
    → IsAllowed p r
      × (i.request ≡ r)
      × (now + 1000 ≤ i.expires_at)
      × (i.expires_at ≤ now + 300000)
      × ((create p r now events).1 ≡ events ++ created_event i ∷ [])
unfolding make_intent
create-intent p r now events i e =
    let (none_refused, same, simulated, recorded) = created_intent p r now events i e in
    let (enabled, least, most, target, selector, calls, pays) = refusal-none p r none_refused in
    let allowed : IsAllowed p r = record {
      enabled = enabled;
      lives = (least, most);
      target = target;
      selector = selector;
      calls = calls;
      pays = pays;
      simulated = simulated;
    } in
    (
      allowed,
      ap (λ j. j.request) same,
      ground (arith, least, same),
      ground (arith, most, same),
      recorded,
    )

-- An intent that was created is let through for the wallet, the chain and the calldata that were
-- reviewed exactly until its time is over, and from then on it is refused as expired.
pub create-validate_for_broadcast :
    (p : IntentProvider) (r : IntentRequest) (now t : ℕ) (events : List IntentAuditEvent)
    (i : TransactionIntent)
    → (create p r now events).0 ≡ intent i
    → validate_for_broadcast i r.wallet r.chain_id r.calldata t
      ≡ (if ltb t (now + r.ttl_seconds * 1000) then none else some expired)
unfolding validate_for_broadcast make_intent
create-validate_for_broadcast p r now t events i e =
    let (none_refused, same, simulated, recorded) = created_intent p r now events i e in
    let wallet = same_text_refl r.wallet in
    let calldata = same_text_refl r.calldata in rw same (ground (arith, wallet, calldata))

-- Whatever is let through for broadcast has, but for the case of its letters, the wallet and the
-- calldata of the intent, has its chain, and comes before it expires; and each of these lets through.
pub validate_for_broadcast_iff :
    (i : TransactionIntent) (wallet : List ℕ) (chain : ℕ) (calldata : List ℕ) (t : ℕ)
    → (validate_for_broadcast i wallet chain calldata t ≡ none) ↔ (
        (same_text i.request.wallet wallet ≡ true)
        × (i.request.chain_id ≡ chain)
        × (t < i.expires_at)
        × (same_text i.request.calldata calldata ≡ true))
unfolding validate_for_broadcast
validate_for_broadcast_iff i wallet chain calldata t = ground arith
