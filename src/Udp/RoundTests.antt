-- ===== src/Udp/RoundTests.antt =====
-- Rounds of `thread_listen` with numbers, for the theorems on udp/ex_udp.c.
use utils_modules.Base.{
  ℕ, Bool, ◌≡◌, refl, true, false, List, [], ◌∷◌, Option, some, none, arith, length, if◌then◌else◌,
  ◌==◌,
}
use utils_modules.Udp.{Link, half, deleted, is_joined, send_msg}
use utils_modules.Udp.Clock.{ms_diff_below, sec_diff}
use utils_modules.Udp.Sock.{Sock, list_erase, is_some}
use utils_modules.Udp.Send.{seq_check_now}
use utils_modules.Udp.Table.{put_at, del_list, list_next, removed, unchain}
use utils_modules.Udp.Dispatch.{tell}
use utils_modules.Udp.Listen.{watch, listen_link, check_watched, free_old}
use utils_modules.Udp.Round.{
  Turn, Walked, ended, walk, visit, settle, after, told_ids, list_begin, is_deleted, listen_round,
  after_wait, free_all,
}
use utils_modules.Udp.Round.Sweep.{sweep}
use utils_modules.Udp.Round.Finish.{walk_sweeps}
use utils_modules.Udp.Tests.{at, link0, sock0}

-- The link at 5 has been silent for long, the one at 6 is new.
abbrev silent : Link
silent = record link0 { link_state = half; id = 7; timeout_times = 4; timeout = at 5 }

abbrev fresh : Link
fresh = record link0 { link_state = half; id = 8; timeout = at 0 }

abbrev two : Sock
two = record sock0 {
  links = λ a. if a == 5 then some silent else if a == 6 then some fresh else none;
  list = 5 ∷ 6 ∷ [];
  by_id = λ i. if i == 7 then some 5 else if i == 8 then some 6 else none;
  by_port = λ p. 5 ∷ 6 ∷ [];
  msgid = some 1;
}

abbrev turn : Turn
turn = record { change = λ s. s; now = at 100; bytes = [] }

walk_sweeps_example :
    (r : Walked) × (sweep 3000 3 (turn ∷ turn ∷ []) two.list two ≡ some r)
    × (walk 3000 3 (turn ∷ turn ∷ []) (list_begin two.list) two ≡ some (true, r))
unfolding is_deleted
walk_sweeps_example =
    walk_sweeps 3000 3 (turn ∷ turn ∷ []) two (omega arith) ((λ s. refl), ((λ s. refl), tt))
      ((((λ e. absurd (omega arith)), tt)), (tt, tt))
      ((silent, refl, refl), ((fresh, refl, refl), tt))
      (λ port. ((silent, refl), ((fresh, refl), tt)))

-- What the walk leaves: the list, the ids that the queue was told, and how many datagrams were sent.
abbrev left : Option (Bool × Walked) → Option (Bool × List ℕ × List ℕ × ℕ)
left none = none
left (some (done, r)) = some (done, r.sock.list, r.told, length r.out)

gives_up :
    left (walk 3000 3 (turn ∷ turn ∷ []) (list_begin two.list) two)
    ≡ some (true, 6 ∷ [], 196615 ∷ [], 1)
unfolding walk list_begin is_deleted visit listen_link watch check_watched seq_check_now settle
    del_list tell told_ids after list_next is_joined send_msg removed unchain list_erase is_some
    ms_diff_below sec_diff put_at
gives_up = refl

-- Another thread deletes the link at 5, at which the walk stands: it goes on with the link behind it.
abbrev gone : Sock → Sock
gone s = record s {
  links = put_at s.links 5 (some (record silent { link_state = deleted }));
  list = 6 ∷ [];
  free_list = 5 ∷ [];
  next_listen_link = some 6;
}

jumps :
    left (walk 3000 3 (record turn { change = gone } ∷ turn ∷ []) (some 5) two)
    ≡ some (true, 6 ∷ [], [], 0)
unfolding walk is_deleted visit listen_link watch check_watched seq_check_now settle after list_next
    is_joined put_at
jumps = refl

-- The socket was closed: the memory of its links is freed.
closes :
    (links : ℕ → Option Link) × (listen_round 3000 3
        (at 1)
        (λ s. record s { is_open = false })
        true
        []
        (gone two)
      ≡ some (ended links))
    × (links 5 ≡ none)
unfolding listen_round after_wait free_all free_old put_at ms_diff_below sec_diff
closes = (_, refl, refl)
