-- ===== src/Udp/Lookup.antt =====
-- A link that `get_link` gives is the one of the address, and stays so, udp/ex_udp.c; and what remains
-- of a link for which there was no id.
use utils_modules.Base.{
  ℕ, ◌≡◌, ◌<◌, leb, false, inl, inr, true, List, [], ◌∷◌, ◌++◌, Option, none, some, ◌==◌, ◌&&◌,
  refl, ap, sym, ◌∙◌, subst, arith, bind_inverse, if_inverse, some-injective,
}
use utils_modules.Timer.{Time}
use utils_modules.Udp.{Link}
use utils_modules.Udp.Sock.{Sock}
use utils_modules.Udp.Table.{
  put_at, new_link, add_list, find_ip, is_syn, create_link, found_or_created, get_link,
}

module _ {ℓ} {A : Type ℓ} where
  put_at-same : (f : ℕ → A) (i : ℕ) (x : A) → put_at f i x i ≡ x
  unfolding put_at
  put_at-same f i x = ground arith

  put_at-other : (f : ℕ → A) (i j : ℕ) (x : A) → ¬ (i ≡ j) → put_at f i x j ≡ f j
  unfolding put_at
  put_at-other f i j x ne = ground arith

-- A link that was found has the ip.
found-Ip :
    (links : ℕ → Option Link) (ip a : ℕ) (chain : List ℕ)
    → find_ip links ip chain ≡ some (some a)
    → (l : Link) × (links a ≡ some l) × (l.ip ≡ ip)
unfolding find_ip
found-Ip links ip a [] e = absurd (let f : none ≡ some a = some-injective e in cc)
found-Ip links ip a (b ∷ chain) e =
    let (l, at, e') = bind_inverse (links b) _ (some a) e in
    elim (if_inverse (l.ip == ip) _ _ _ e') [
      | inl (same, done) ↦
          let b_eq : b ≡ a = some-injective (some-injective done) in
          (l, subst (λ c. links c ≡ some l) b_eq at, ground arith)
      | inr (other, more) ↦ found-Ip links ip a chain more
    ]

-- A chain in which the ip was not found, and then a link with the ip at an address that was free.
find_ip-added :
    (links : ℕ → Option Link) (ip m : ℕ) (chain : List ℕ) (o : Option Link)
    → find_ip links ip chain ≡ some none
    → links m ≡ none
    → find_ip (put_at links m o) ip (chain ++ (m ∷ [])) ≡ find_ip (put_at links m o) ip (m ∷ [])
unfolding find_ip
find_ip-added links ip m [] o e free = refl
find_ip-added links ip m (b ∷ chain) o e free =
    let (l, at, e') = bind_inverse (links b) _ none e in
    let other : ¬ (m ≡ b) = λ same. (let f : none ≡ some l = sym free ∙ ap links same ∙ at in cc) in
    let at' : put_at links m o b ≡ some l = put_at-other links m b o other ∙ at in
    elim (if_inverse (l.ip == ip) _ _ _ e') [
      | inl (same, done) ↦ absurd (let f : some b ≡ none = some-injective done in cc)
      | inr (differs, more) ↦ rw (at', differs) (find_ip-added links ip m chain o more free)
    ]

found-alone :
    (links : ℕ → Option Link) (ip m : ℕ) (l : Link)
    → l.ip ≡ ip
    → find_ip (put_at links m (some l)) ip (m ∷ []) ≡ some (some m)
unfolding find_ip
found-alone links ip m l e =
    let same : (l.ip == ip) ≡ true = ground arith in rw (put_at-same links m (some l), same) refl

dangling : (links : ℕ → Option Link) (ip m : ℕ) → find_ip (put_at links m none) ip (m ∷ []) ≡ none
unfolding find_ip
dangling links ip m = rw (put_at-same links m none) refl

-- What `get_link` gives for an address: a link with the ip, and the same link at the next call.
abbrev Given : Sock → ℕ → ℕ → ℕ → Type 0
Given s ip port a =
    ((l : Link) × (s.links a ≡ some l) × (l.ip ≡ ip))
    × (find_ip s.links ip (s.by_port port) ≡ some (some a))

created-Given :
    (s s' : Sock) (m ip port a : ℕ) (now : Time)
    → find_ip s.links ip (s.by_port port) ≡ some none
    → s.links m ≡ none
    → (ids : List ℕ)
    → add_list
        (record s { by_port = put_at s.by_port port (s.by_port port ++ (m ∷ [])) })
        ids
        m
        ip
        port
        now
      ≡ (some a, s')
    → Given s' ip port a
unfolding add_list new_link
created-Given s s' m ip port a now e free [] done =
    absurd (let f : none ≡ some a = ap (λ t. t.0) done in cc)
created-Given s s' m ip port a now e free (id ∷ ids) done =
    let chain : List ℕ = s.by_port port ++ (m ∷ []) in
    let s1 : Sock = record s { by_port = put_at s.by_port port chain } in
    let l : Link = new_link s1 ip port id now in
    let same : m ≡ a = some-injective (ap (λ t. t.0) done) in
    let at : put_at s.links m (some l) m ≡ some l = put_at-same s.links m (some l) in
    let found : find_ip (put_at s.links m (some l)) ip (put_at s.by_port port chain port)
        ≡ some (some m) =
      rw (put_at-same s.by_port port chain) (
        find_ip-added s.links ip m (s.by_port port) (some l) e free
        ∙ found-alone s.links ip m l refl) in
    subst (Given s' ip port) same
      (subst (λ t. Given t ip port m) (ap (λ t. t.1) done) ((l, at, refl), found))

given-again :
    (s : Sock) (mem : Option ℕ) (ip port type a : ℕ) (now : Time)
    → leb 65535 port ≡ false
    → find_ip s.links ip (s.by_port port) ≡ some (some a)
    → get_link s mem ip port type now ≡ some (some a, s)
unfolding get_link found_or_created
given-again s mem ip port type a now inside e = rw (inside, e) refl

found_or_created-Given :
    (s s' : Sock) (mem : Option ℕ) (ip port type a : ℕ) (now : Time) (found : Option ℕ)
    → ((m : ℕ) → mem ≡ some m → s.links m ≡ none)
    → find_ip s.links ip (s.by_port port) ≡ some found
    → found_or_created s mem ip port type now found ≡ (some a, s')
    → Given s' ip port a
unfolding found_or_created create_link
found_or_created-Given s s' mem ip port type a now (some b) free look done =
    let same : b ≡ a = some-injective (ap (λ t. t.0) done) in
    subst (Given s' ip port) same (
      subst (λ t. Given t ip port b) (ap (λ t. t.1) done)
        (found-Ip s.links ip b (s.by_port port) look, look))
found_or_created-Given s s' none ip port type a now none free look done =
    elim (if_inverse (is_syn type && s.is_open) _ _ _ done) [
      | inl (c, e) ↦ absurd (let f : none ≡ some a = ap (λ t. t.0) e in cc)
      | inr (c, e) ↦ absurd (let f : none ≡ some a = ap (λ t. t.0) e in cc)
    ]
found_or_created-Given s s' (some m) ip port type a now none free look done =
    elim (if_inverse (is_syn type && s.is_open) _ _ _ done) [
      | inl (c, e) ↦ created-Given s s' m ip port a now look (free m refl) s.free_ids e
      | inr (c, e) ↦ absurd (let f : none ≡ some a = ap (λ t. t.0) e in cc)
    ]

-- If `malloc` gives memory that no link is in, then a link that `get_link` gives for an ip and a port,
-- found or newly made, has the ip, and the next call for them, of a packet of any type, gives the same
-- link and changes nothing; the port is below 65535, so the calls stay inside the table of the ports.
pub get_link_finds :
    (s s' : Sock) (mem mem' : Option ℕ) (ip port type type' a : ℕ) (now now' : Time)
    → ((m : ℕ) → mem ≡ some m → s.links m ≡ none)
    → get_link s mem ip port type now ≡ some (some a, s')
    → ((l : Link) × (s'.links a ≡ some l) × (l.ip ≡ ip))
      × (get_link s' mem' ip port type' now' ≡ some (some a, s'))
      × (port < 65535)
unfolding get_link
get_link_finds s s' mem mem' ip port type type' a now now' free e =
    elim (if_inverse (leb 65535 port) _ _ _ e) [
      | inl (outside, out) ↦ absurd cc
      | inr (inside, run) ↦
          let (found, look, done) =
            bind_inverse (find_ip s.links ip (s.by_port port)) _ (some a, s') run in
          let (linked, again) =
            found_or_created-Given s s' mem ip port type a now found free look
              (some-injective done) in
          (linked, given-again s' mem' ip port type' a now' inside again, ground arith)
    ]

-- If no id is left when a link is to be made for a port below 65535, then `get_link` gives none, but the
-- address of the link, which was freed, stays among those of the port: the next packet of the same ip and
-- port, of any type, makes `get_link` read freed memory.
pub get_link_dangles :
    (s : Sock) (m ip port type type' : ℕ) (mem' : Option ℕ) (now now' : Time)
    → port < 65535
    → find_ip s.links ip (s.by_port port) ≡ some none
    → s.links m ≡ none
    → s.free_ids ≡ []
    → is_syn type && s.is_open ≡ true
    → (s' : Sock) × (get_link s (some m) ip port type now ≡ some (none, s'))
      × (get_link s' mem' ip port type' now' ≡ none)
unfolding get_link found_or_created create_link add_list
get_link_dangles s m ip port type type' mem' now now' lt look free full syn =
    let inside : leb 65535 port ≡ false = ground arith in
    let chain : List ℕ = s.by_port port ++ (m ∷ []) in
    let s' : Sock = record s {
      by_port = put_at s.by_port port chain;
      links = put_at s.links m none;
    } in
    let gone : find_ip (put_at s.links m none) ip (m ∷ []) ≡ none = dangling s.links ip m in
    let read : find_ip (put_at s.links m none) ip (put_at s.by_port port chain port) ≡ none =
      rw (put_at-same s.by_port port chain)
        (find_ip-added s.links ip m (s.by_port port) none look free ∙ gone) in
    (s', rw (inside, look, syn, full) refl, rw (inside, read) refl)
