-- ===== src/Poll/Sorted.antt =====
-- src/b6b_poll.c: the loop over the events.
use b6b.Base.{
  ℕ, suc, ◌+◌, ◌-◌, ◌≤◌, ◌<◌, ◌≡◌, refl, ap, true, false, List, [], ◌∷◌, ltb, length, arith, All,
}
use b6b.Store.Monad.{M, ◌>>◌, pure}
use b6b.Poll.{Event, Ready, is_reported, add_event, sort_events}

-- Each event is added, in their order.
unfoldable pub each_event : Ready → List Event → M (Unit {0})
each_event f [] = pure tt
each_event f (e ∷ es) = do add_event f e; each_event f es

ltb-true : (a b : ℕ) → a < b → ltb a b ≡ true
ltb-true a b h = ground arith

ltb-same : (a : ℕ) → ltb a a ≡ false
ltb-same a = ground arith

sort_rest :
    (f : Ready) (ret left j : ℕ) (es : List Event)
    → All (λ e. is_reported e ≡ true) es
    → j + length es ≡ ret
    → length es ≤ left
    → sort_events f ret left j es ≡ each_event f es
unfolding sort_events each_event
sort_rest f ret left j [] h q b = let done : ret ≡ j = omega arith in rw (done, ltb-same j) refl
sort_rest f ret left j (e ∷ es) h q b =
    rw (ltb-true j ret (omega arith), ltb-true 0 left (omega arith), h.0)
      (ap (λ next. add_event f e >> next)
        (sort_rest f ret (left - 1) (suc j) es h.1 (omega arith) (omega arith)))

-- Where every event asks for reading, writing or an error, which is all that epoll reports, the loop
-- adds each of those that epoll_wait wrote, in their order, and reads none behind them.
pub sort_events_lem :
    (f : Ready) (n : ℕ) (evs : List Event)
    → All (λ e. is_reported e ≡ true) evs
    → length evs ≤ n
    → sort_events f (length evs) n 0 evs ≡ each_event f evs
sort_events_lem f n evs h b = sort_rest f (length evs) n 0 evs h (omega arith) b
