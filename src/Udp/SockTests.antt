-- ===== src/Udp/SockTests.antt =====
-- Sockets with numbers, for the theorems on the links of a socket of udp/ex_udp.c.
use utils_modules.Base.{
  ◌<◌, List, ℕ, ◌+◌, ◌++◌, false, ◌≡◌, refl, true, [], ◌∷◌, some, none, ◌&&◌, arith,
}
use utils_modules.Timer.{Time}
use utils_modules.Udp.{idle, joined, Link, type_byte}
use utils_modules.Udp.Clock.{ms_diff_below, sec_diff}
use utils_modules.Udp.Sock.{Sock}
use utils_modules.Udp.Handshake.{Joins, Rejoins, handshake-Joins}
use utils_modules.Udp.Table.{
  get_link, new_link, find_ip, is_syn, put_at, found_or_created, create_link, add_list,
}
use utils_modules.Udp.Lookup.{get_link_finds, get_link_dangles}
use utils_modules.Udp.Listen.{watched, given_up}
use utils_modules.Udp.Silence.{watches, watches_give_up, counted, is_early}
use utils_modules.Udp.Tests.{at, link0, sock0}

-- A link is made for the ip 9 at the address 5, and another packet comes from there.
abbrev made : Sock
made = record sock0 {
  by_port = put_at sock0.by_port 4000 (5 ∷ []);
  free_ids = 8 ∷ [];
  links = put_at sock0.links 5 (some (new_link sock0 9 4000 7 (at 1)));
  by_id = put_at sock0.by_id 7 (some 5);
  list = 5 ∷ [];
  accept_posts = 1;
  listen_posts = 1;
}

makes : get_link sock0 (some 5) 9 4000 1 (at 1) ≡ some (some 5, made)
unfolding get_link find_ip found_or_created is_syn type_byte create_link add_list new_link
makes = refl

get_link_finds_example :
    ((l : Link) × (made.links 5 ≡ some l) × (l.ip ≡ 9))
    × (get_link made none 9 4000 4 (at 2) ≡ some (some 5, made))
    × (4000 < 65535)
get_link_finds_example =
    get_link_finds sock0 made (some 5) none 9 4000 1 4 5 (at 1) (at 2) (λ m e. refl) makes

abbrev full : Sock
full = record sock0 { free_ids = [] }

full-unknown : find_ip full.links 9 (full.by_port 4000) ≡ some none
unfolding find_ip
full-unknown = refl

full-asked : is_syn 1 && full.is_open ≡ true
unfolding is_syn type_byte
full-asked = refl

get_link_dangles_example :
    (s : Sock) × (get_link full (some 5) 9 4000 1 (at 1) ≡ some (none, s))
    × (get_link s none 9 4000 4 (at 2) ≡ none)
get_link_dangles_example =
    get_link_dangles full 5 9 4000 1 4 none (at 1) (at 2) (omega arith) full-unknown refl refl
      full-asked

-- Checks at 8, 9, 11 and 14 seconds, of a link that was silent from 5 on: the second one is early.
abbrev check_at : ℕ → Sock × Time
check_at sec = (record sock0 { time_listen = at sec }, at sec)

abbrev checks : List (Sock × Time)
checks = check_at 8 ∷ check_at 9 ∷ check_at 11 ∷ check_at 14 ∷ []

checks-counted : counted 3000 3 (at 5) 1 checks ≡ 4
unfolding counted ms_diff_below sec_diff
checks-counted = refl

watches_give_up_example :
    (watches 3000 3 checks link0
      ≡ some (watched (record link0 { timeout_times = counted 3000 3 (at 5) 1 checks }) []))
    × (counted 3000 3 (at 5) 1 checks ≡ 3 + 1
        → is_early 3000 3 (at 5) (3 + 1) (check_at 17) ≡ false
        → watches 3000 3 (checks ++ (check_at 17 ∷ [])) link0 ≡ some given_up)
watches_give_up_example =
    watches_give_up 3000 3 checks (check_at 17) link0 refl (omega (arith, checks-counted))
      (omega arith)

-- At 17 seconds, four intervals after 5, the link is given up.
given_up_test : watches 3000 3 (checks ++ (check_at 17 ∷ [])) link0 ≡ some given_up
unfolding ms_diff_below sec_diff
given_up_test =
    (watches_give_up 3000 3 checks (check_at 17) link0 refl (omega (arith, checks-counted))
        (omega arith)).1
      checks-counted refl

-- The side that asks has read up to the packet 77 of an earlier link, the other side is connected, has
-- read up to 1500, and 41 packets that it sent are confirmed.
abbrev asking : Link
asking = record link0 { link_state = idle; seq_check_send = 0; seq_read = 77 }

abbrev asked : Link
asked = record link0 {
  link_state = joined;
  seq_check_send = 41;
  seq_max_send = 50;
  seq_read = 1500;
}

handshake-Joins_example :
    (asked.link_state ≡ idle
      → asked.seq_check_send ≡ 0
      → Joins (λ bs. at 0) 3000 sock0 asking sock0 asked (at 1))
    × (asked.link_state ≡ joined → Rejoins (λ bs. at 0) 3000 sock0 asking sock0 asked (at 1))
handshake-Joins_example =
    handshake-Joins (λ bs. at 0) 3000 sock0 sock0 asking asked (at 1) refl refl
