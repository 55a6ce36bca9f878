-- ===== src/Udp/ConnectTests.antt =====
-- Calls of `exConnect` and `exAccept` with numbers, for the theorems on udp/ex_udp.c.
use utils_modules.Base.{◌+◌, ℕ, ◌≡◌, ◌≢◌, refl, true, false, [], ◌∷◌, some, arith}
use utils_modules.Udp.{Link}
use utils_modules.Udp.Sock.{Sock}
use utils_modules.Udp.Table.{
  put_at, find_unaccepted, mark_accepted, accept_found, get_link_accept, find_connected,
}
use utils_modules.Udp.Connect.{
  Wake, woken, link_id, linked, refused, Connected, give_back, take_link, one_more, look_up,
  connect_loop, ex_connect, accept_next, ex_accept,
}
use utils_modules.Udp.Connect.Tries.{EndsAs, ex_connect_ends}
use utils_modules.Udp.Connect.Takes.{accept_once}
use utils_modules.Udp.Tests.{link0, sock0}

abbrev free_link : ℕ → Link
free_link id = record link0 { accept = false; id = id }

-- A link comes to the address 6.
abbrev comes : Sock → Sock
comes s = record s {
  links = put_at s.links 6 (some (free_link 8));
  list = 6 ∷ [];
  accept_posts = s.accept_posts + 1;
}

abbrev too_late : Wake
too_late = record { passed = false; priority = true; change = λ s. s }

abbrev in_time : Wake
in_time = record { passed = true; priority = true; change = comes }

connects :
    (c : Connected) × (ex_connect 3 9 4000 (too_late ∷ in_time ∷ too_late ∷ []) sock0 ≡ some c)
    × (c.result ≡ linked 6 196616)
    × (c.requests ≡ 2)
unfolding ex_connect connect_loop woken look_up find_connected take_link link_id give_back one_more
    put_at
connects = (_, refl, refl, refl)

refuses :
    (c : Connected) × (ex_connect 1 9 4000 (too_late ∷ []) sock0 ≡ some c)
    × (c.result ≡ refused)
    × (c.sock.accept_posts ≡ 1)
unfolding ex_connect connect_loop woken look_up find_connected take_link link_id give_back one_more
refuses = (_, refl, refl, refl)

ex_connect_ends_example :
    (c : Connected) × (ex_connect 3 9 4000 (too_late ∷ in_time ∷ too_late ∷ []) sock0 ≡ some c)
    × EndsAs 9 4000 3 c.result c
unfolding put_at
ex_connect_ends_example =
    ex_connect_ends 9 4000 3 (too_late ∷ in_time ∷ too_late ∷ []) sock0 (omega arith)
      (λ s v. v, (λ s v. ((free_link 8, refl), tt), (λ s v. v, tt))) tt refl

-- One link waits at the address 5; the second call waits till another one comes.
abbrev one_waits : Sock
one_waits = record sock0 { links = put_at sock0.links 5 (some (free_link 7)); list = 5 ∷ [] }

abbrev joins : Sock → Sock
joins s = record s { links = put_at s.links 6 (some (free_link 8)); list = 5 ∷ 6 ∷ [] }

abbrev another : Wake
another = record { passed = true; priority = false; change = joins }

abbrev one_taken : Sock
one_taken = mark_accepted one_waits 5 (free_link 7)

abbrev both_taken : Sock
both_taken = mark_accepted (woken another one_taken) 6 (free_link 8)

first_call : ex_accept [] one_waits ≡ some (linked 5 196615, one_taken)
unfolding ex_accept accept_next get_link_accept find_unaccepted accept_found mark_accepted put_at
    link_id
first_call = refl

second_call : ex_accept (another ∷ []) one_taken ≡ some (linked 6 196616, both_taken)
unfolding ex_accept accept_next get_link_accept find_unaccepted accept_found mark_accepted put_at
    link_id woken
second_call = refl

accept_once_example : ◌≢◌ {A = ℕ} 6 5
unfolding put_at
accept_once_example =
    accept_once [] (another ∷ []) one_waits one_taken both_taken 5 6 196615 196616 (λ s. s)
      (λ s t. t) (λ s t. t, tt) first_call second_call
