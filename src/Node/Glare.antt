-- ===== src/Node/Glare.antt =====
-- The glare rule: which of two nodes dials the other.
use p2p_hls.Prelude.{
  ◌≡◌, refl, ◌≢◌, ◌⊎◌, inl, inr, true, false, Bool-cases, GoString, str_ltb, str_ltb_irrefl,
  str_ltb_trans, str_ltb-total, lookup, string_eq, none, sym, ◌∙◌, arith,
}
use p2p_hls.Node.{Node, should_dial, ensure_peer, dials_peer, nudges_peer, heeds, swarm_dial_relay}

-- One node dials when it wants the edge, and when it is nudged for it; the other only nudges, and
-- does not follow a nudge.
pub record Dials (a b : Node) : Type 0 where
  pub dials : ensure_peer a b.self ≡ dials_peer
  pub nudges : ensure_peer b a.self ≡ nudges_peer
  pub follows : heeds a b.self swarm_dial_relay ≡ true
  pub ignores : heeds b a.self swarm_dial_relay ≡ false

should_dial_asym : (x y : GoString) → should_dial x y ≡ true → should_dial y x ≡ false
unfolding should_dial
should_dial_asym x y h = elim (Bool-cases (str_ltb y x)) [
  | inl q ↦ let loop = str_ltb_trans x y x h q in let no = str_ltb_irrefl x in ground arith
  | inr q ↦ q
]

should_dial-Dials :
    (a b : Node)
    → lookup b.self a.sessions ≡ none
    → lookup a.self b.sessions ≡ none
    → should_dial a.self b.self ≡ true
    → Dials a b
unfolding ensure_peer heeds
should_dial-Dials a b p q h =
    let k = should_dial_asym a.self b.self h in
    record {
      dials = rw (p, ensure_peer, h) refl;
      nudges = rw (q, ensure_peer, k) refl;
      follows = h;
      ignores = k;
    }

Dials-excludes : (a b : Node) → Dials a b → ¬ Dials b a
Dials-excludes a b d = λ e. let no = sym d.follows ∙ e.ignores in ground arith

-- Of two nodes with different ids and no session to each other, exactly one is the dialer of their
-- edge, whichever of them wants it first: that one dials, at once or when it is nudged; the other
-- sends a nudge when it wants the edge, and does not follow one.
pub ensure_peer-Dials :
    (a b : Node)
    → a.self ≢ b.self
    → lookup b.self a.sessions ≡ none
    → lookup a.self b.sessions ≡ none
    → (Dials a b × ¬ Dials b a) ⊎ (Dials b a × ¬ Dials a b)
unfolding should_dial
ensure_peer-Dials a b apart p q = elim (Bool-cases (should_dial a.self b.self)) [
  | inl h ↦ inl (should_dial-Dials a b p q h, Dials-excludes a b (should_dial-Dials a b p q h))
  | inr h ↦ elim (Bool-cases (should_dial b.self a.self)) [
    | inl k ↦ inr (should_dial-Dials b a q p k, Dials-excludes b a (should_dial-Dials b a q p k))
    | inr k ↦ absurd (apart (str_ltb-total a.self b.self h k))
  ]
]
