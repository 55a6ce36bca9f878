-- ===== src/Udp/Connect/Taken.antt =====
-- What `GetLinkAccept` of udp/ex_udp.c takes, and what stays taken.
use utils_modules.Base.{
  ℕ, ◌≡◌, refl, sym, ap, subst, ◌∙◌, ◌⊎◌, inl, inr, arith, true, false, List, [], ◌∷◌, Option, none,
  some, Bool-cases, bind_inverse, if_inverse, some-injective, ◌==◌,
}
use utils_modules.Udp.{Link}
use utils_modules.Udp.Sock.{Sock}
use utils_modules.Udp.Table.{put_at, find_unaccepted, mark_accepted, accept_found, get_link_accept}
use utils_modules.Udp.Connect.{Wake, woken}

-- The link of an address is in memory, and a call has taken it.
abbrev pub IsTaken : ℕ → Sock → Type 0
IsTaken a s = (l : Link) × (s.links a ≡ some l) × (l.accept ≡ true)

-- What the other threads do leaves the link taken.
abbrev pub KeepsTaken : ℕ → (Sock → Sock) → Type 0
KeepsTaken a change = (s : Sock) → IsTaken a s → IsTaken a (change s)

find_unaccepted_lem :
    (links : ℕ → Option Link) (chain : List ℕ) (a : ℕ)
    → find_unaccepted links chain ≡ some (some a)
    → (l : Link) × (links a ≡ some l) × (l.accept ≡ false)
unfolding find_unaccepted
find_unaccepted_lem links [] a e = absurd cc
find_unaccepted_lem links (b ∷ chain) a e =
    let (l, at, e') = bind_inverse (links b) _ (some a) e in
    elim (if_inverse l.accept _ _ _ e') [
      | inl (on, later) ↦ find_unaccepted_lem links chain a later
      | inr (off, this) ↦
          let same : b ≡ a = some-injective (some-injective this) in
          (l, ap links (sym same) ∙ at, off)
    ]

put_at-here : (f : ℕ → Option Link) (a : ℕ) (o : Option Link) → put_at f a o a ≡ o
unfolding put_at
put_at-here f a o = ground arith

put_at-IsTaken :
    (s : Sock) (a b : ℕ) (l : Link)
    → IsTaken a s
    → l.accept ≡ true
    → IsTaken a (record s { links = put_at s.links b (some l) })
unfolding put_at
put_at-IsTaken s a b l (k, at, on) set = elim (Bool-cases (b == a)) [
  | inl same ↦ (l, rw same refl, set)
  | inr other ↦ (k, rw other at, on)
]

-- What a search found, and the socket after it.
accept_found_lem :
    (s s' : Sock) (o found : Option ℕ)
    → accept_found s o ≡ some (found, s')
    → ((o ≡ none) × (found ≡ none) × (s' ≡ s))
      ⊎ ((b : ℕ) × (l : Link) × (o ≡ some b)
          × (found ≡ some b)
          × (s.links b ≡ some l)
          × (s' ≡ mark_accepted s b l))
unfolding accept_found
accept_found_lem s s' none found e =
    let both = some-injective e in inl (refl, sym (ap (λ r. r.0) both), sym (ap (λ r. r.1) both))
accept_found_lem s s' (some b) found e =
    let (l, at, e') = bind_inverse (s.links b) _ (found, s') e in
    let both = some-injective e' in
    inr (b, l, refl, sym (ap (λ r. r.0) both), at, sym (ap (λ r. r.1) both))

mark_accepted-IsTaken : (s : Sock) (a : ℕ) (l : Link) → IsTaken a (mark_accepted s a l)
unfolding mark_accepted
mark_accepted-IsTaken s a l =
    (record l { accept = true; wait_time = s.wait_time }, put_at-here s.links a _, refl)

mark_accepted-KeepsTaken :
    (s : Sock) (a b : ℕ) (l : Link) → IsTaken a s → IsTaken a (mark_accepted s b l)
unfolding mark_accepted
mark_accepted-KeepsTaken s a b l t =
    put_at-IsTaken s a b (record l { accept = true; wait_time = s.wait_time }) t refl

-- The call takes a link that no call had taken.
pub get_link_accept-takes :
    (s s' : Sock) (a : ℕ)
    → get_link_accept s ≡ some (some a, s')
    → ((l : Link) × (s.links a ≡ some l) × (l.accept ≡ false)) × IsTaken a s'
unfolding get_link_accept
get_link_accept-takes s s' a e =
    let (o, search, e') = bind_inverse (find_unaccepted s.links s.list) _ (some a, s') e in
    elim (accept_found_lem s s' o (some a) e') [
      | inl (none_found, nothing, same) ↦ absurd cc
      | inr (b, l, o_is, is, at, marked) ↦
          let same : a ≡ b = some-injective is in
          (
            find_unaccepted_lem s.links s.list a (search ∙ ap some (o_is ∙ sym is)),
            subst (IsTaken a) (sym marked)
                (subst (λ x. IsTaken a (mark_accepted s x l)) same (mark_accepted-IsTaken s a l)),
          )
    ]

-- And keeps those that were taken.
pub get_link_accept-KeepsTaken :
    (s s' : Sock) (a : ℕ) (found : Option ℕ)
    → IsTaken a s
    → get_link_accept s ≡ some (found, s')
    → IsTaken a s'
unfolding get_link_accept
get_link_accept-KeepsTaken s s' a found t e =
    let (o, search, e') = bind_inverse (find_unaccepted s.links s.list) _ (found, s') e in
    elim (accept_found_lem s s' o found e') [
      | inl (none_found, nothing, same) ↦ subst (IsTaken a) (sym same) t
      | inr (b, l, o_is, is, at, marked) ↦
          subst (IsTaken a) (sym marked) (mark_accepted-KeepsTaken s a b l t)
    ]

pub woken-IsTaken :
    (w : Wake) (s : Sock) (a : ℕ) → KeepsTaken a w.change → IsTaken a s → IsTaken a (woken w s)
unfolding woken
woken-IsTaken w s a k t = elim (Bool-cases w.passed) [
  | inl on ↦ rw on (k s t)
  | inr off ↦ rw off (k s t)
]
