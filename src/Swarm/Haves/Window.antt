-- ===== src/Swarm/Haves/Window.antt =====
-- What `SetHave` and `Retain` do to the set of held Segments and to its epoch.
use p2p_hls.Prelude.{
  ◌≡◌, refl, sym, ap, ◌∙◌, Bool, false, not, ◌&&◌, ◌||◌, ltb, if◌then◌else◌, ℤ, List, [], ◌∷◌,
  select, has, int_eq, ◌==◌, has-append, has-select, length, arith, ==_iff,
}
use p2p_hls.Swarm.Engine.{Swarm}
use p2p_hls.Swarm.Haves.{set_have, have_segment, retain, outside, next_epoch}

-- Recording a Segment adds it and nothing else, and the epoch moves exactly when it was not held.
pub have-set_have :
    (s : Swarm) (idx j : ℤ)
    → (have_segment (set_have s idx) j ≡ (idx == j || have_segment s j))
      × ((set_have s idx).have_epoch
          ≡ (if have_segment s idx then s.have_epoch else next_epoch s.have_epoch))
unfolding have_segment set_have has
have-set_have s idx j = ground (arith, has-append j s.have (idx ∷ []), ==_iff idx j)

empty_of_length : (l : List ℤ) → ltb 0 (length l) ≡ false → l ≡ []
empty_of_length [] h = refl
empty_of_length (x ∷ l) h = ground arith

nothing_outside :
    (p : ℤ → Bool) (j : ℤ) (l : List ℤ)
    → ltb 0 (length (select p l)) ≡ false
    → (p j && has j l) ≡ false
unfolding has
nothing_outside p j l h = sym (has-select j p l) ∙ ap (has j) (empty_of_length (select p l) h)

-- After `Retain` exactly the held Segments inside the window are held, the evicted ones are
-- exactly those outside, and the epoch moves exactly when something was evicted.
pub have-retain :
    (s : Swarm) (min max j : ℤ)
    → let r = retain s min max in
      (have_segment r.0 j ≡ (not (outside min max j) && have_segment s j))
      × (has j r.1 ≡ (outside min max j && have_segment s j))
      × (r.0.have_epoch ≡ (if ltb 0 (length r.1) then next_epoch s.have_epoch else s.have_epoch))
unfolding have_segment retain
have-retain s min max j =
    let evicted = select (outside min max) s.have in
    ground (
      arith,
      has-select j (outside min max) s.have,
      has-select j (λ idx. not (has idx evicted)) s.have,
      nothing_outside (outside min max) j s.have,
    )
