-- ===== src/Party/Host/Audience.antt =====
-- The Audience that a Host keeps: who is in it after a history of events.
use p2p_hls.Prelude.{
  ◌≡◌, refl, ap, ◌∙◌, if◌then◌else◌, GoString, string_eq, ◌==◌, List, [], ◌∷◌, Option, none, some,
  keys, lookup, lookup-insert, lookup-delete, Distinct, insert-Distinct, delete-Distinct, arith,
}
use p2p_hls.Party.Types.{NodeId, Time}
use p2p_hls.Party.Host.{
  Host, Event, plays, pauses, reports, seeks, ticks, joins, leaves, step, run, on_play, on_pause,
  on_report, on_seek, tick, join, leave,
}

-- The name under which a node is in the Audience, told by the node's own joins and leaves alone:
-- the latest of them decides.
unfoldable pub membership : NodeId → Option GoString → List (Time × Event) → Option GoString
membership n was [] = was
membership n was ((now, joins m name) ∷ es) = membership n (if m == n then some name else was) es
membership n was ((now, leaves m) ∷ es) = membership n (if m == n then none else was) es
membership n was ((now, e) ∷ es) = membership n was es

tick-audience : (h : Host) (now : Time) → (tick h now).0.audience ≡ h.audience
unfolding tick
tick-audience h now = ground arith

on_report-audience : (h : Host) (p : _) (now : Time) → (on_report h p now).audience ≡ h.audience
unfolding on_report
on_report-audience h p now = ground arith

-- After any history a node is in the Audience, under the name of its latest join, exactly when
-- its latest join or leave is a join; playback events and other nodes' events change nothing.
pub lookup-run :
    (n : NodeId) (h : Host) (es : List (Time × Event))
    → lookup n (run h es).audience ≡ membership n (lookup n h.audience) es
unfolding run membership step on_play on_pause on_seek join leave
lookup-run n h [] = refl
lookup-run n h ((now, plays p) ∷ es) = lookup-run n (step h (now, plays p)) es
lookup-run n h ((now, pauses p) ∷ es) = lookup-run n (step h (now, pauses p)) es
lookup-run n h ((now, reports p) ∷ es) =
    lookup-run n (step h (now, reports p)) es
    ∙ ap (λ a. membership n (lookup n a) es) (on_report-audience h p now)
lookup-run n h ((now, seeks p) ∷ es) = lookup-run n (step h (now, seeks p)) es
lookup-run n h ((now, ticks) ∷ es) =
    lookup-run n (step h (now, ticks)) es
    ∙ ap (λ a. membership n (lookup n a) es) (tick-audience h now)
lookup-run n h ((now, joins m name) ∷ es) =
    lookup-run n (step h (now, joins m name)) es
    ∙ ap (λ o. membership n o es) (lookup-insert m n name h.audience)
lookup-run n h ((now, leaves m) ∷ es) =
    lookup-run n (step h (now, leaves m)) es
    ∙ ap (λ o. membership n o es) (lookup-delete m n h.audience)

step-Distinct :
    (h : Host) (e : Time × Event) → Distinct (keys h.audience) → Distinct (keys (step h e).audience)
unfolding step on_play on_pause on_seek join leave
step-Distinct h (now, plays p) d = d
step-Distinct h (now, pauses p) d = d
step-Distinct h (now, reports p) d = rw (on_report-audience h p now) d
step-Distinct h (now, seeks p) d = d
step-Distinct h (now, ticks) d = rw (tick-audience h now) d
step-Distinct h (now, joins m name) d = insert-Distinct m name h.audience d
step-Distinct h (now, leaves m) d = delete-Distinct m h.audience d

-- No history puts a node into the Audience twice, so a broadcast reaches each viewer once and the
-- viewer count counts nodes.
pub run-Distinct :
    (h : Host) (es : List (Time × Event))
    → Distinct (keys h.audience)
    → Distinct (keys (run h es).audience)
unfolding run
run-Distinct h [] d = d
run-Distinct h (e ∷ es) d = run-Distinct (step h e) es (step-Distinct h e d)
