-- ===== src/Rpc/BlockLag/Laws.antt =====
-- What the lag monitor keeps.
use hood_sentry.Prelude.{
  ℕ, zero, suc, ◌+◌, ◌-◌, ◌≤◌, max, ◌≡◌, inl, inr, List, [], ◌∷◌, ◌++◌, arith, ltb, tests,
  Bool-cases, Option-cases, length, drop, length-drop,
}
use Prim.Native.String.{String}
use hood_sentry.Prelude.{All, All-append, All-mono}
use hood_sentry.Prelude.Dict.{get_value, set_value-All, get_value-All}
use text.Mathlib.Text.{◌==◌ as str_eq}
use hood_sentry.Prelude.{ℕ, ◌≤◌, ◌≡◌, refl, ap, ◌∙◌, Option, none, some, if◌then◌else◌, max}
use hood_sentry.Prelude.Dict.{get_value-set_value}
use hood_sentry.Rpc.BlockLag.{
  Call, reports, advances, step, run, empty, update_provider_block, lag_of, get_lag,
  BlockLagMonitor, BlockLagMetrics, max_history_size, trim, metrics_of, record_lag, record_lags,
  update_network_head, history_or_empty,
}

-- An entry of the history says how far its block was behind the head of its time.
abbrev pub IsMeasured : ℕ → BlockLagMetrics → Type 0
IsMeasured head e =
    (e.lag + e.current_block ≡ max e.expected_block e.current_block) × (e.expected_block ≤ head)

pub record IsHistory (head : ℕ) (h : List BlockLagMetrics) : Type 0 where
  pub bounded : length h ≤ max_history_size
  pub measured : All (IsMeasured head) h

abbrev pub Inv : BlockLagMonitor → Type 0
Inv m = All (λ e. IsHistory m.network_head e.1) m.lag_history

All-drop {ℓ κ} : {A : Type ℓ} (P : A → Type κ) (n : ℕ) (xs : List A) → All P xs → All P (drop n xs)
All-drop P zero xs h = h
All-drop P (suc n) [] h = tt
All-drop P (suc n) (x ∷ xs) h = All-drop P n xs h.1

trim-All {κ} : (P : BlockLagMetrics → Type κ) (h : List BlockLagMetrics) → All P h → All P (trim h)
unfolding trim
trim-All P h a = elim (Bool-cases (ltb max_history_size (length h))) [
  | inl e ↦ rw e (All-drop P (length h - max_history_size) h a)
  | inr e ↦ rw e a
]

length-trim : (h : List BlockLagMetrics) → length (trim h) ≤ max_history_size
unfolding trim
length-trim h = elim (Bool-cases (ltb max_history_size (length h))) [
  | inl e ↦ rw e (omega (arith, length-drop (length h - max_history_size) h))
  | inr e ↦ rw e (ground arith)
]

empty-IsHistory : (head : ℕ) → IsHistory head []
empty-IsHistory head = record { bounded = omega arith; measured = tt }

metrics_of-IsMeasured :
    (url : String) (block head now : ℕ) → IsMeasured head (metrics_of url block head now)
unfolding metrics_of
metrics_of-IsMeasured url block head now = omega arith

extend-IsHistory :
    (url : String) (block head now : ℕ) (h : List BlockLagMetrics)
    → IsHistory head h
    → IsHistory head (trim (h ++ metrics_of url block head now ∷ []))
extend-IsHistory url block head now h v = record {
  bounded = length-trim _;
  measured =
      trim-All (IsMeasured head) _ (
        All-append (IsMeasured head) h _ v.measured (metrics_of-IsMeasured url block head now, tt));
}

history_or_empty-IsHistory :
    (head : ℕ) (url : String) (m : List (String × List BlockLagMetrics))
    → All (λ e. IsHistory head e.1) m
    → IsHistory head (history_or_empty (get_value url m))
history_or_empty-IsHistory head url m v = elim (Option-cases (get_value url m)) [
  | inl e ↦ rw e (empty-IsHistory head)
  | inr (h, e) ↦ rw e (get_value-All (IsHistory head) url m v e)
]

record_lag-Inv : (now : ℕ) (m : BlockLagMonitor) (e : String × ℕ) → Inv m → Inv (record_lag now m e)
unfolding record_lag
record_lag-Inv now m (url, block) v =
    set_value-All (IsHistory m.network_head) url _ m.lag_history
      (extend-IsHistory url block m.network_head now _
        (history_or_empty-IsHistory m.network_head url m.lag_history v))
      v

record_lags-Inv :
    (now : ℕ) (m : BlockLagMonitor) (es : List (String × ℕ)) → Inv m → Inv (record_lags now m es)
unfolding record_lags
record_lags-Inv now m [] v = v
record_lags-Inv now m (e ∷ es) v =
    record_lags-Inv now (record_lag now m e) es (record_lag-Inv now m e v)

raise-IsHistory : (a b : ℕ) (h : List BlockLagMetrics) → a ≤ b → IsHistory a h → IsHistory b h
raise-IsHistory a b h k v = record {
  bounded = v.bounded;
  measured = All-mono (IsMeasured a) (IsMeasured b) h (λ e p. omega arith) v.measured;
}

update_network_head-Inv :
    (now block : ℕ) (m : BlockLagMonitor) → Inv m → Inv (update_network_head now block m)
unfolding update_network_head
update_network_head-Inv now block m v = elim (Bool-cases (ltb m.network_head block)) [
  | inl e ↦ rw e (
      record_lags-Inv now (record m { network_head = block }) m.provider_blocks
        (All-mono _ _ m.lag_history
          (λ h p. raise-IsHistory m.network_head block h.1 (omega (tests, e)) p) v))
  | inr e ↦ rw e v
]

step-Inv : (m : BlockLagMonitor) (e : ℕ × Call) → Inv m → Inv (step m e)
unfolding step update_provider_block
step-Inv m (now, reports url block) v = v
step-Inv m (now, advances block) v = update_network_head-Inv now block m v

run-Inv : (m : BlockLagMonitor) (es : List (ℕ × Call)) → Inv m → Inv (run m es)
unfolding run
run-Inv m [] v = v
run-Inv m (e ∷ es) v = run-Inv (step m e) es (step-Inv m e v)

-- After any calls on a new monitor every provider's history has at most 100 entries, and each entry
-- holds the lag of its block behind the head of its time, which is at most the present head.
pub run-empty-Inv : (es : List (ℕ × Call)) → Inv (run empty es)
unfolding empty
run-empty-Inv es = run-Inv empty es tt

-- The highest block that `updateNetworkHead` was called with.
abbrev pub highest : ℕ → List (ℕ × Call) → ℕ
highest acc [] = acc
highest acc ((now, reports url block) ∷ es) = highest acc es
highest acc ((now, advances block) ∷ es) = highest (max acc block) es

-- The block that a provider reported last.
abbrev pub last_report : String → Option ℕ → List (ℕ × Call) → Option ℕ
last_report url acc [] = acc
last_report url acc ((now, reports j block) ∷ es) =
    last_report url (if str_eq j url then some block else acc) es
last_report url acc ((now, advances block) ∷ es) = last_report url acc es

record_lags_keeps :
    (now : ℕ) (m : BlockLagMonitor) (es : List (String × ℕ))
    → ((record_lags now m es).network_head ≡ m.network_head)
      × ((record_lags now m es).provider_blocks ≡ m.provider_blocks)
unfolding record_lags record_lag
record_lags_keeps now m [] = (refl, refl)
record_lags_keeps now m (e ∷ es) = record_lags_keeps now (record_lag now m e) es

advance_lem :
    (now block : ℕ) (m : BlockLagMonitor)
    → ((update_network_head now block m).network_head ≡ max m.network_head block)
      × ((update_network_head now block m).provider_blocks ≡ m.provider_blocks)
unfolding update_network_head
advance_lem now block m =
    ground (arith, record_lags_keeps now (record m { network_head = block }) m.provider_blocks)

network_head-run :
    (m : BlockLagMonitor) (es : List (ℕ × Call))
    → (run m es).network_head ≡ highest m.network_head es
unfolding run step update_provider_block
network_head-run m [] = refl
network_head-run m ((now, reports url block) ∷ es) =
    network_head-run (update_provider_block url block m) es
network_head-run m ((now, advances block) ∷ es) =
    network_head-run (update_network_head now block m) es
    ∙ ap (λ h. highest h es) (advance_lem now block m).0

provider_blocks-run :
    (m : BlockLagMonitor) (url : String) (es : List (ℕ × Call))
    → get_value url (run m es).provider_blocks
      ≡ last_report url (get_value url m.provider_blocks) es
unfolding run step update_provider_block
provider_blocks-run m url [] = refl
provider_blocks-run m url ((now, reports j block) ∷ es) =
    provider_blocks-run (update_provider_block j block m) url es
    ∙ ap (λ b. last_report url b es) (get_value-set_value j url block m.provider_blocks)
provider_blocks-run m url ((now, advances block) ∷ es) =
    provider_blocks-run (update_network_head now block m) url es
    ∙ ap (λ b. last_report url (get_value url b) es) (advance_lem now block m).1

-- After any calls on a new monitor the lag of a provider is how far its last reported block is behind
-- the highest head seen (0 if it is ahead), and the largest safe integer if it never reported.
pub get_lag-run :
    (es : List (ℕ × Call)) (url : String)
    → get_lag (run empty es) url ≡ lag_of (highest 0 es) (last_report url none es)
unfolding get_lag empty get_value
get_lag-run es url =
    ap (λ h. lag_of h (get_value url (run empty es).provider_blocks)) (network_head-run empty es)
    ∙ ap (lag_of (highest 0 es)) (provider_blocks-run empty url es)
