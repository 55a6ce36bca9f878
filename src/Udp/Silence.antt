-- ===== src/Udp/Silence.antt =====
-- A link that is silent is given up, udp/ex_udp.c: `thread_listen`, with the times of `setListenTime`.
use utils_modules.Base.{
  ℕ, ◌+◌, ◌∙◌, ◌*◌, ◌%◌, ◌≤◌, ◌<◌, ◌≡◌, inl, inr, Bool, true, false, List, [], ◌∷◌, ◌++◌, Option,
  none, some, ◌==◌, ltb, if◌then◌else◌, arith, refl, ap, Bool-cases,
}
use utils_modules.Timer.{Time}
use utils_modules.Udp.{Datagram, Link, is_joined, send_msg}
use utils_modules.Udp.Clock.{ms_diff_below}
use utils_modules.Udp.Sock.{Sock}
use utils_modules.Udp.Listen.{heartbeat, Watch, watched, given_up, watch}

either {ℓ} :
    {A : Type ℓ} {x y : Option A} (c : Bool)
    → ((a : A) × (x ≡ some a))
    → ((a : A) × (y ≡ some a))
    → (a : A) × ((if c then x else y) ≡ some a)
either true p q = p
either false p q = q

module _ (interval times : ℕ) where
  -- The checks of a link in the rounds of the thread, until it is given up.
  unfoldable pub go_on : Option Watch → (Link → Option Watch) → Option Watch
  go_on none f = none
  go_on (some given_up) f = some given_up
  go_on (some (watched l out)) f = f l

  unfoldable pub watches : List (Sock × Time) → Link → Option Watch
  watches [] l = some (watched l [])
  watches (r ∷ rs) l = go_on (watch interval times (r.0) l (r.1)) (watches rs)

  heartbeat-Sends : (l : Link) → (out : List Datagram) × (heartbeat l ≡ some out)
  unfolding heartbeat send_msg
  heartbeat-Sends l = either (is_joined l.link_state) (_, refl) ([], refl)

  -- The check comes before the end of the interval with a number since the last packet.
  abbrev pub is_early : Time → ℕ → Sock × Time → Bool
  is_early timeout k r = ms_diff_below (r.0).time_listen timeout (interval * k)

  -- How far the intervals are counted, from the interval `k` on: a check counts the next one when it comes
  -- at its end or later, and any other check counts nothing.
  unfoldable pub counted : Time → ℕ → List (Sock × Time) → ℕ
  counted timeout k [] = k
  counted timeout k (r ∷ rs) = counted timeout (if is_early timeout k r then k else k + 1) rs

  counted_mono : (timeout : Time) (k : ℕ) (rs : List (Sock × Time)) → k ≤ counted timeout k rs
  unfolding counted
  counted_mono timeout k [] = omega arith
  counted_mono timeout k (r ∷ rs) = elim (Bool-cases (is_early timeout k r)) [
    | inl early ↦ rw early (counted_mono timeout k rs)
    | inr late ↦ rw late (omega (arith, counted_mono timeout (k + 1) rs))
  ]

  early-watched :
      (r : Sock × Time) (l : Link)
      → (l.timeout.sec == 0) ≡ false
      → is_early l.timeout l.timeout_times r ≡ true
      → watch interval times (r.0) l (r.1) ≡ some (watched l [])
  unfolding watch
  early-watched r l set early = rw (set, early) refl

  late-watched :
      (r : Sock × Time) (l : Link)
      → (l.timeout.sec == 0) ≡ false
      → is_early l.timeout l.timeout_times r ≡ false
      → l.timeout_times ≤ times
      → times < 255
      → (out : List Datagram) × (watch interval times (r.0) l (r.1)
          ≡ some (watched (record l { timeout_times = l.timeout_times + 1 }) out))
  unfolding watch
  late-watched r l set late h k =
      let (out, sent) = heartbeat-Sends l in
      let more : ltb times l.timeout_times ≡ false = ground arith in
      let byte : (l.timeout_times + 1) % 256 ≡ l.timeout_times + 1 = omega arith in
      (out, rw (set, late, more, sent, byte) refl)

  late-given_up :
      (r : Sock × Time) (l : Link)
      → (l.timeout.sec == 0) ≡ false
      → is_early l.timeout l.timeout_times r ≡ false
      → l.timeout_times ≡ times + 1
      → watch interval times (r.0) l (r.1) ≡ some given_up
  unfolding watch
  late-given_up r l set late e =
      let less : ltb times l.timeout_times ≡ true = ground arith in rw (set, late, less) refl

  silent_lem :
      (rs : List (Sock × Time)) (r : Sock × Time) (l : Link) (n : ℕ)
      → (l.timeout.sec == 0) ≡ false
      → counted l.timeout l.timeout_times rs ≡ n
      → n ≤ times + 1
      → times < 255
      → (watches rs l ≡ some (watched (record l { timeout_times = n }) []))
        × (n ≡ times + 1
            → is_early l.timeout (times + 1) r ≡ false
            → watches (rs ++ (r ∷ [])) l ≡ some given_up)
  unfolding watches go_on counted
  silent_lem [] r l n set e h k = (
    ap (λ t. some (watched (record l { timeout_times = t }) [])) e,
    λ full late.
        let last : l.timeout_times ≡ times + 1 = e ∙ full in
        let now : is_early l.timeout l.timeout_times r ≡ false =
          ap (λ t. is_early l.timeout t r) last ∙ late in
        rw (late-given_up r l set now last) refl,
  )
  silent_lem (x ∷ rs) r l n set e h k = elim (Bool-cases (is_early l.timeout l.timeout_times x)) [
    | inl early ↦
        let (there, gone) = silent_lem rs r l n set (rw early at e) h k in
        let one = early-watched x l set early in
        (rw one there, λ full late. rw one (gone full late))
    | inr late ↦
        let e' : counted l.timeout (l.timeout_times + 1) rs ≡ n = rw late at e in
        let below : l.timeout_times ≤ times =
          omega (arith, e', counted_mono l.timeout (l.timeout_times + 1) rs) in
        let (out, one) = late-watched x l set late below k in
        let next : Link = record l { timeout_times = l.timeout_times + 1 } in
        let (there, gone) = silent_lem rs r next n set e' h k in
        (rw one there, λ full last. rw one (gone full last))
  ]

  -- For fewer than 255 times, a silent link, whose time is set, is still there after any checks by which
  -- no more intervals than the times and one are counted, with that count: a check before the end of the
  -- interval that is counted changes nothing, and one at its end or later counts it. When all of these are
  -- counted, a check at the end of the last interval or later, times + 1 intervals after the last packet,
  -- gives the link up.
  pub watches_give_up :
      (rs : List (Sock × Time)) (r : Sock × Time) (l : Link)
      → (l.timeout.sec == 0) ≡ false
      → counted l.timeout l.timeout_times rs ≤ times + 1
      → times < 255
      → (watches rs l
          ≡ some (watched (record l { timeout_times = counted l.timeout l.timeout_times rs }) []))
        × (counted l.timeout l.timeout_times rs ≡ times + 1
            → is_early l.timeout (times + 1) r ≡ false
            → watches (rs ++ (r ∷ [])) l ≡ some given_up)
  watches_give_up rs r l set = silent_lem rs r l (counted l.timeout l.timeout_times rs) set refl

  -- If 255 or more times are set, then no check ever gives a link up: the count of a link is a byte.
  pub watch_never_gives_up :
      (s : Sock) (l : Link) (now : Time)
      → 255 ≤ times
      → l.timeout_times < 256
      → (l' : Link) × (out : List Datagram) × (watch interval times s l now ≡ some (watched l' out))
        × (l'.timeout_times < 256)
  unfolding watch
  watch_never_gives_up s l now h k =
      let (out, sent) = heartbeat-Sends l in
      let more : ltb times l.timeout_times ≡ false = ground arith in
      elim (Bool-cases (l.timeout.sec == 0)) [
        | inl unset ↦
            (record l { timeout = now; timeout_times = 1 }, [], rw unset refl, omega arith)
        | inr set ↦
            elim (Bool-cases (ms_diff_below s.time_listen l.timeout (interval * l.timeout_times))) [
              | inl early ↦ (l, [], rw (set, early) refl, k)
              | inr late ↦ (
                record l { timeout_times = (l.timeout_times + 1) % 256 },
                out,
                rw (set, late, more, sent) refl,
                omega arith,
              )
            ]
      ]
