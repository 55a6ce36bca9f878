-- ===== src/Udp/Connect/Takes.antt =====
-- The links that `exAccept` of udp/ex_udp.c takes.
use utils_modules.Base.{
  ℕ, ◌≡◌, ◌≢◌, sym, ap, subst, ◌∙◌, ◌⊎◌, inl, inr, Bool, true, false, not, List, [], ◌∷◌, Option,
  none, some, if◌then◌else◌, All, bind_inverse, if_inverse, some-injective,
}
use utils_modules.Udp.Sock.{Sock}
use utils_modules.Udp.Table.{get_link_accept}
use utils_modules.Udp.Connect.{
  Wake, woken, CallEnd, closed, linked, give_back, accept_next, ex_accept,
}
use utils_modules.Udp.Connect.Taken.{
  IsTaken, KeepsTaken, get_link_accept-takes, get_link_accept-KeepsTaken, woken-IsTaken,
}

round_gives :
    (o p : Bool) (s s' : Sock) (a id : ℕ) (way search : Option (CallEnd × Sock))
    → (if not o then some (closed, s) else if p then way else search) ≡ some (linked a id, s')
    → (way ≡ some (linked a id, s')) ⊎ (search ≡ some (linked a id, s'))
round_gives false p s s' a id way search e = absurd cc
round_gives true true s s' a id way search e = inl e
round_gives true false s s' a id way search e = inr e

linked-injective : {a b i j : ℕ} → linked a i ≡ linked b j → a ≡ b
linked-injective e = cc

give_back-IsTaken : (s : Sock) (a : ℕ) → IsTaken a s → IsTaken a (give_back s)
unfolding give_back
give_back-IsTaken s a t = t

-- A search that found a link leaves it taken.
abbrev FoundIsTaken : Option ℕ → Sock → Type 0
FoundIsTaken none s = Unit
FoundIsTaken (some a) s = IsTaken a s

get_link_accept-FoundIsTaken :
    (s s' : Sock) (found : Option ℕ) → get_link_accept s ≡ some (found, s') → FoundIsTaken found s'
get_link_accept-FoundIsTaken s s' none e = tt
get_link_accept-FoundIsTaken s s' (some a) e = (get_link_accept-takes s s' a e).1

accept_next-IsTaken :
    (ws : List Wake) (found : Option ℕ) (s s' : Sock) (a id : ℕ)
    → FoundIsTaken found s
    → accept_next ws (found, s) ≡ some (linked a id, s')
    → IsTaken a s'
unfolding accept_next
accept_next-IsTaken ws (some b) s s' a id t e =
    let (l, at, e') = bind_inverse (s.links b) _ (linked a id, s') e in
    let both = some-injective e' in
    let same : b ≡ a = linked-injective (ap (λ r. r.0) both) in
    subst (λ x. IsTaken a x) (ap (λ r. r.1) both) (subst (λ x. IsTaken x s) same t)
accept_next-IsTaken [] none s s' a id t e = absurd cc
accept_next-IsTaken (w ∷ ws) none s s' a id t e =
    let s1 : Sock = woken w s in
    elim (round_gives s1.is_open w.priority s1 s' a id _ _ e) [
      | inl later ↦ accept_next-IsTaken ws none (give_back s1) s' a id tt later
      | inr now ↦
          let ((found, s2), got, e') = bind_inverse (get_link_accept s1) _ (linked a id, s') now in
          accept_next-IsTaken ws found s2 s' a id (get_link_accept-FoundIsTaken s1 s2 found got) e'
    ]

-- A search does not give a link that was taken.
abbrev Misses : ℕ → Option ℕ → Type 0
Misses a found = found ≢ some a

get_link_accept-Misses :
    (s s' : Sock) (a : ℕ) (found : Option ℕ)
    → IsTaken a s
    → get_link_accept s ≡ some (found, s')
    → Misses a found
get_link_accept-Misses s s' a found (l, at, on) e is =
    let ((k, free, off), _) = get_link_accept-takes s s' a (e ∙ ap (λ o. some (o, s')) is) in
    let same : k ≡ l = some-injective (sym free ∙ at) in absurd (cc)

accept_next-skips :
    (ws : List Wake) (found : Option ℕ) (s s' : Sock) (a b id : ℕ)
    → All (λ w. KeepsTaken a w.change) ws
    → IsTaken a s
    → Misses a found
    → accept_next ws (found, s) ≡ some (linked b id, s')
    → b ≢ a
unfolding accept_next
accept_next-skips ws (some c) s s' a b id k t m e =
    let (l, at, e') = bind_inverse (s.links c) _ (linked b id, s') e in
    let same : c ≡ b = linked-injective (ap (λ r. r.0) (some-injective e')) in
    λ is. m (ap some (same ∙ is))
accept_next-skips [] none s s' a b id k t m e = absurd cc
accept_next-skips (w ∷ ws) none s s' a b id (kw, k) t m e =
    let s1 : Sock = woken w s in
    let t1 : IsTaken a s1 = woken-IsTaken w s a kw t in
    elim (round_gives s1.is_open w.priority s1 s' b id _ _ e) [
      | inl later ↦
          accept_next-skips ws none (give_back s1) s' a b id k (give_back-IsTaken s1 a t1) m later
      | inr now ↦
          let ((found, s2), got, e') = bind_inverse (get_link_accept s1) _ (linked b id, s') now in
          accept_next-skips ws found s2 s' a b id k
            (get_link_accept-KeepsTaken s1 s2 a found t1 got)
            (get_link_accept-Misses s1 s2 a found t1 got) e'
    ]

-- `exAccept` does not give a link that a call has taken, while the other threads keep it taken.
ex_accept-skips :
    (ws : List Wake) (s s' : Sock) (a b id : ℕ)
    → All (λ w. KeepsTaken a w.change) ws
    → IsTaken a s
    → ex_accept ws s ≡ some (linked b id, s')
    → b ≢ a
unfolding ex_accept
ex_accept-skips ws s s' a b id k t e = elim (if_inverse s.is_open _ _ _ e) [
  | inr (off, ended) ↦ absurd cc
  | inl (on, e') ↦
      let ((found, s2), got, next) = bind_inverse (get_link_accept s) _ (linked b id, s') e' in
      accept_next-skips ws found s2 s' a b id k (get_link_accept-KeepsTaken s s2 a found t got)
        (get_link_accept-Misses s s2 a found t got) next
]

ex_accept-IsTaken :
    (ws : List Wake) (s s' : Sock) (a id : ℕ)
    → ex_accept ws s ≡ some (linked a id, s')
    → IsTaken a s'
unfolding ex_accept
ex_accept-IsTaken ws s s' a id e = elim (if_inverse s.is_open _ _ _ e) [
  | inr (off, ended) ↦ absurd cc
  | inl (on, e') ↦
      let ((found, s2), got, next) = bind_inverse (get_link_accept s) _ (linked a id, s') e' in
      accept_next-IsTaken ws found s2 s' a id (get_link_accept-FoundIsTaken s s2 found got) next
]

-- Two calls of `exAccept` on one socket, one after the other, give different links: if the first gave
-- the link at `a`, and what the other threads do after it, and while the second call waits, leaves
-- that link in memory and taken, then the second call gives a link at another address.
pub accept_once :
    (ws ws' : List Wake) (s s1 s2 : Sock) (a b id id' : ℕ) (between : Sock → Sock)
    → KeepsTaken a between
    → All (λ w. KeepsTaken a w.change) ws'
    → ex_accept ws s ≡ some (linked a id, s1)
    → ex_accept ws' (between s1) ≡ some (linked b id', s2)
    → b ≢ a
accept_once ws ws' s s1 s2 a b id id' between k ks e e' =
    ex_accept-skips ws' (between s1) s2 a b id' ks (k s1 (ex_accept-IsTaken ws s s1 a id e)) e'
