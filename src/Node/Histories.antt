-- ===== src/Node/Histories.antt =====
-- The sessions of a node over any history.
use p2p_hls.Prelude.{
  ◌≡◌, refl, sym, ap, ◌∙◌, Bool, true, false, if◌then◌else◌, ◌==◌, ==_iff, string_eq, GoString,
  List, [], ◌∷◌, Option, none, some, map_some, lookup, lookup-map, append_assoc, ◌++◌, arith,
}
use p2p_hls.Node.{Node, Link, new_link, create, update, start, set_catalog, set_media}
use p2p_hls.Node.Moves.{
  NodeEvent, node_step, node_run, IsServed, IsServedAt, AllServed, IsKept, IsKeptAt, lookup-update,
  lookup-create, IsKept-refl, Harmless, Move, node_step-Move, lookup-started, stays, creates,
  creates_and_starts, changes, has_catalog, has_media, follows,
}

same-kept : (o : Option Link) → IsKeptAt o o
same-kept none = tt
same-kept (some link) = IsKept-refl link

module _ (n : Node) (r : GoString) where
  -- At the entry of the node `r`, new with the services that there are, or as it was.
  new-served :
      (b : Bool) (link : Link)
      → IsServed n link
      → AllServed n
      → IsServedAt n (if b then some link else lookup r n.sessions)
  new-served true link l s = l
  new-served false link l s = s r

  changed-served :
      (g : Link → Link) (m : Node)
      → ((link : Link) → IsServed n link → IsServed m (g link))
      → (o : Option Link) → IsServedAt n o
      → IsServedAt m (map_some g o)
  changed-served g m f none s = tt
  changed-served g m f (some link) s = f link s

  Harmless-served :
      (f : Link → Link)
      → Harmless f
      → (b : Bool) → AllServed n
      → IsServedAt n (if b then map_some f (lookup r n.sessions) else lookup r n.sessions)
  Harmless-served f h true s =
      changed-served f n
        (λ link l. record {
          catalog = h.catalog link ∙ l.catalog;
          media = h.media link ∙ l.media;
          party = h.party link ∙ l.party;
          once = omega (arith, l.once, (h.kept link).starts);
        })
        (lookup r n.sessions) (s r)
  Harmless-served f h false s = s r

  -- Kept, if the node had none with that id before.
  new-kept :
      (b : Bool) (o : Option Link)
      → (b ≡ true → lookup r n.sessions ≡ none)
      → IsKeptAt (lookup r n.sessions) (if b then o else lookup r n.sessions)
  new-kept true o absent = rw (absent refl) tt
  new-kept false o absent = same-kept (lookup r n.sessions)

  changed-kept :
      (g : Link → Link)
      → ((link : Link) → IsKept link (g link))
      → (o : Option Link) → IsKeptAt o (map_some g o)
  changed-kept g f none = tt
  changed-kept g f (some link) = f link

  Harmless-kept :
      (f : Link → Link)
      → Harmless f
      → (b : Bool)
      → IsKeptAt
          (lookup r n.sessions)
          (if b then map_some f (lookup r n.sessions) else lookup r n.sessions)
  Harmless-kept f h true = changed-kept f h.kept (lookup r n.sessions)
  Harmless-kept f h false = same-kept (lookup r n.sessions)

absent_at :
    (n : Node) (r remote : GoString)
    → lookup remote n.sessions ≡ none
    → (remote == r) ≡ true
    → lookup r n.sessions ≡ none
absent_at n r remote a q = ap (λ k. lookup k n.sessions) (sym ((==_iff remote r).0 q)) ∙ a

-- A node with the same services.
same_services :
    (n m : Node)
    → n.catalog ≡ m.catalog
    → n.media ≡ m.media
    → n.party ≡ m.party
    → (o : Option Link) → IsServedAt n o
    → IsServedAt m o
same_services n m c d p none s = tt
same_services n m c d p (some link) s = record {
  catalog = s.catalog ∙ c;
  media = s.media ∙ d;
  party = s.party ∙ p;
  once = s.once;
}

Move-served : (n n' : Node) → Move n n' → AllServed n → AllServed n'
unfolding create update start set_catalog set_media
Move-served n n' (stays e) s = rw e s
Move-served n n' (creates remote a e) s = rw e (λ r.
    same_services n (create n remote) refl refl refl _ (
      rw (lookup-create r remote n) (
        new-served n r (remote == r) (new_link n)
          record { catalog = refl; media = refl; party = refl; once = omega arith } s)))
Move-served n n' (creates_and_starts remote a e) s = rw e (λ r.
    same_services n (update remote start (create n remote)) refl refl refl _ (
      rw (lookup-started r remote n) (
        new-served n r (remote == r) (start (new_link n))
          record { catalog = refl; media = refl; party = refl; once = omega arith } s)))
Move-served n n' (changes remote f h e) s = rw e (λ r.
    same_services n (update remote f n) refl refl refl _
      (rw (lookup-update r remote f n) (Harmless-served n r f h (remote == r) s)))
Move-served n n' (follows {m = m} a b) s = Move-served m n' b (Move-served n m a s)
Move-served n n' (has_catalog e) s = rw e (λ r.
    rw (lookup-map r (λ link. record link { serves_catalog = true }) n.sessions) (
      changed-served n r (λ link. record link { serves_catalog = true }) (set_catalog n)
        (λ link l. record { catalog = refl; media = l.media; party = l.party; once = l.once })
        (lookup r n.sessions) (s r)))
Move-served n n' (has_media e) s = rw e (λ r.
    rw (lookup-map r (λ link. record link { serves_media = true }) n.sessions) (
      changed-served n r (λ link. record link { serves_media = true }) (set_media n)
        (λ link l. record { catalog = l.catalog; media = refl; party = l.party; once = l.once })
        (lookup r n.sessions) (s r)))

kept_trans : (o p q : Option Link) → IsKeptAt o p → IsKeptAt p q → IsKeptAt o q
kept_trans none p q h k = tt
kept_trans (some a) (some b) (some c) h k = record {
  serial = k.serial ∙ h.serial;
  starts = k.starts ∙ h.starts;
  handed = (
    k.handed.0 ++ h.handed.0,
    k.handed.1
        ∙ ap (λ l. k.handed.0 ++ l) h.handed.1
        ∙ sym (append_assoc k.handed.0 h.handed.0 a.handed),
  );
  ready = λ r. k.ready (h.ready r);
}
kept_trans (some a) none q h k = elim h [ ]
kept_trans (some a) (some b) none h k = elim k [ ]

Move-kept :
    (n n' : Node)
    → Move n n'
    → (r : GoString) → IsKeptAt (lookup r n.sessions) (lookup r n'.sessions)
unfolding create update start set_catalog set_media
Move-kept n n' (stays e) r = rw e (same-kept (lookup r n.sessions))
Move-kept n n' (creates remote a e) r =
    rw (e, lookup-create r remote n) (new-kept n r (remote == r) _ (absent_at n r remote a))
Move-kept n n' (creates_and_starts remote a e) r =
    rw (e, lookup-started r remote n) (new-kept n r (remote == r) _ (absent_at n r remote a))
Move-kept n n' (changes remote f h e) r =
    rw (e, lookup-update r remote f n) (Harmless-kept n r f h (remote == r))
Move-kept n n' (follows {m = m} a b) r =
    kept_trans (lookup r n.sessions) (lookup r m.sessions) _ (Move-kept n m a r)
      (Move-kept m n' b r)
Move-kept n n' (has_catalog e) r =
    rw (e, lookup-map r (λ link. record link { serves_catalog = true }) n.sessions)
      (changed-kept n r _
        (λ link. record { serial = refl; starts = refl; handed = ([], refl); ready = λ h. h })
        (lookup r n.sessions))
Move-kept n n' (has_media e) r =
    rw (e, lookup-map r (λ link. record link { serves_media = true }) n.sessions)
      (changed-kept n r _
        (λ link. record { serial = refl; starts = refl; handed = ([], refl); ready = λ h. h })
        (lookup r n.sessions))

-- Over every history of a node, its own dials, signals and nudges from other nodes, handshakes and
-- the installing of the catalog and the media service, in any order and with any failure, every
-- session of the node has exactly the handlers of the services that the node has, and has been
-- started as the initiator at most once.
pub node_run-AllServed : (n : Node) (es : List NodeEvent) → AllServed n → AllServed (node_run n es)
unfolding node_run
node_run-AllServed n [] s = s
node_run-AllServed n (e ∷ es) s =
    node_run-AllServed (node_step n e) es (Move-served n (node_step n e) (node_step-Move n e) s)

-- Over every history of a node, its own dials, signals and nudges from other nodes, handshakes and
-- the installing of the catalog and the media service, in any order and with any failure, a session
-- that the node has to another node is the one that it keeps, ready or not: the table is never left
-- without it, no other session takes its place, it is not started again as the initiator, it stays
-- ready once it is, and the signals that were handed to it stay the first that it got.
pub node_run-IsKeptAt :
    (n : Node) (es : List NodeEvent) (r : GoString)
    → IsKeptAt (lookup r n.sessions) (lookup r (node_run n es).sessions)
unfolding node_run
node_run-IsKeptAt n [] r = same-kept (lookup r n.sessions)
node_run-IsKeptAt n (e ∷ es) r =
    kept_trans (lookup r n.sessions) (lookup r (node_step n e).sessions) _
      (Move-kept n (node_step n e) (node_step-Move n e) r) (node_run-IsKeptAt (node_step n e) es r)
