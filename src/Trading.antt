-- ===== src/Trading.antt =====
-- packages/trading/src: what is checked of a transaction before it is offered or sent. A text whose
-- case is folded is the list of its code units; the texts compared so are hexadecimal.
pub mod Quote
pub mod Intent
