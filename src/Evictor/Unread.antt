-- ===== src/Evictor/Unread.antt =====
-- src/buffer/evictor/lruk_evictor.rs, src/buffer/impl/guard.rs: a read guard records an access to its
-- frame and a write guard does not; pins of either kind only set frames evictable or not.
use abdb.Base.{ℕ, ◌≡◌, refl, ap, Bool, true, false, none, List, [], ◌∷◌, ◌==◌, Bool-cases, inl, inr}
use abdb.Evictor.{
  FrameInfo, LruKEvictor, Search, new, start, visit, victim_loop, upsert, set_evictable, remove,
  remove_frame, find_victim,
}
use abdb.Evictor.History.{Call, records, sets, removes, step, run}

-- No call records an access.
abbrev pub NoneRecorded : List Call → Type 0
NoneRecorded [] = Unit {0}
NoneRecorded (records id ∷ cs) = ⊥
NoneRecorded (sets id evictable ∷ cs) = NoneRecorded cs
NoneRecorded (removes id ∷ cs) = NoneRecorded cs

abbrev Unread : List (ℕ × FrameInfo) → Type 0
Unread [] = Unit {0}
Unread ((id, info) ∷ frames) = (info.history ≡ []) × Unread frames

upsert-Unread :
    (id : ℕ) (evictable : Bool) (frames : List (ℕ × FrameInfo))
    → Unread frames
    → Unread (
        upsert id
          (record { history = []; evictable = evictable })
          (λ info. record info { evictable = evictable })
          frames)
unfolding upsert
upsert-Unread id evictable [] w = (refl, tt)
upsert-Unread id evictable ((id', info) ∷ frames) w = elim (Bool-cases (id' == id)) [
  | inl same ↦ rw same (w.0, w.1)
  | inr other ↦ rw other (w.0, upsert-Unread id evictable frames w.1)
]

remove-Unread : (id : ℕ) (frames : List (ℕ × FrameInfo)) → Unread frames → Unread (remove id frames)
unfolding remove
remove-Unread id [] w = tt
remove-Unread id ((id', info) ∷ frames) w = elim (Bool-cases (id' == id)) [
  | inl same ↦ rw same w.1
  | inr other ↦ rw other (w.0, remove-Unread id frames w.1)
]

visit_unread :
    (k now : ℕ) (s : Search) (id : ℕ) (evictable : Bool) (history : List ℕ)
    → history ≡ []
    → visit k now s id evictable history ≡ s
unfolding visit
visit_unread k now s id false history h = refl
visit_unread k now s id true [] h = refl
visit_unread k now s id true (x ∷ xs) h = cc

loop-Unread :
    (k now : ℕ) (s : Search) (frames : List (ℕ × FrameInfo))
    → Unread frames
    → victim_loop k now s frames ≡ s
unfolding victim_loop
loop-Unread k now s [] w = refl
loop-Unread k now s ((id, info) ∷ frames) w =
    rw (visit_unread k now s id info.evictable info.history w.0) (loop-Unread k now s frames w.1)

run-Unread :
    (e : LruKEvictor) (cs : List Call) → Unread e.state → NoneRecorded cs → Unread (run e cs).state
unfolding run step set_evictable remove_frame
run-Unread e [] w h = w
run-Unread e (records id ∷ cs) w h = elim h [ ]
run-Unread e (sets id evictable ∷ cs) w h =
    run-Unread (set_evictable e id evictable) cs (upsert-Unread id evictable e.state w) h
run-Unread e (removes id ∷ cs) w h =
    run-Unread (remove_frame e id) cs (remove-Unread id e.state w) h

find_victim_of_Unread : (e : LruKEvictor) → Unread e.state → find_victim e ≡ none
unfolding find_victim start
find_victim_of_Unread e w = ap (λ s. s.victim) (loop-Unread e.k e.current_timestamp start e.state w)

new-Unread : (k : ℕ) → Unread (new k).state
unfolding new
new-Unread k = tt

-- After any calls on a new evictor of which none records an access, `find_victim` finds no frame,
-- however many are set evictable.
pub find_victim_unread :
    (k : ℕ) (cs : List Call) → NoneRecorded cs → find_victim (run (new k) cs) ≡ none
find_victim_unread k cs h =
    find_victim_of_Unread (run (new k) cs) (run-Unread (new k) cs (new-Unread k) h)
