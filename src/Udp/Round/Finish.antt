-- ===== src/Udp/Round/Finish.antt =====
-- The walk of `thread_listen` of udp/ex_udp.c reads no memory that was freed, and comes to its end.
use utils_modules.Base.{
  ℕ, ◌≡◌, ◌≢◌, refl, sym, ap, subst, ◌∙◌, inl, inr, arith, Bool, true, false, not, List, [], ◌∷◌,
  Option, none, some, if◌then◌else◌, ◌>>=◌, All, All-impl, Bool-cases, ◌==◌, ◌||◌, ◌&&◌,
  some-injective, ltb, length, ◌≤◌,
}
use utils_modules.Timer.{Time}
use utils_modules.Udp.{Link, Datagram, send_msg}
use utils_modules.Udp.Sock.{Sock, is_some}
use utils_modules.Udp.Table.{put_at, del_list, removed, unchain}
use utils_modules.Udp.Listen.{listen_link}
use utils_modules.Udp.Round.{Turn, Walked, settle, visit, after, walk, list_begin}
use utils_modules.Udp.Round.Keeps.{ListensSame, visit-IsTurned, listen_link-ListensSame}
use utils_modules.Udp.Round.Sweep.{
  sweep, Stands, turned-Stands, walk-sweep, finished, IsQuiet, IsDistinct, AreLinked,
}
use utils_modules.Udp.Round.Returns.{Returns, if-Returns, listen_link-Returns}

-- The links of a chain are in memory.
abbrev pub AreHeld : (ℕ → Option Link) → List ℕ → Type 0
AreHeld links chain = All (λ a. Returns (links a)) chain

-- And so for the chains of all ports.
abbrev pub IsChained : Sock → Type 0
IsChained s = (port : ℕ) → AreHeld s.links (s.by_port port)

unchain-AreHeld :
    (links : ℕ → Option Link) (ip socket : ℕ) (chain : List ℕ)
    → AreHeld links chain
    → (rest : List ℕ) × (unchain links ip socket chain ≡ some rest) × AreHeld links rest
unfolding unchain
unchain-AreHeld links ip socket [] h = ([], refl, tt)
unchain-AreHeld links ip socket (a ∷ chain) ((l, at), h) =
    let (rest, e, held) = unchain-AreHeld links ip socket chain h in
    elim (Bool-cases (l.ip == ip && l.socket == socket)) [
      | inl found ↦ (chain, rw (at, found) refl, h)
      | inr other ↦ (a ∷ rest, rw (at, other, e) refl, ((l, at), held))
    ]

put_at-AreHeld :
    (links : ℕ → Option Link) (a : ℕ) (l : Link) (chain : List ℕ)
    → AreHeld links chain
    → AreHeld (put_at links a (some l)) chain
unfolding put_at
put_at-AreHeld links a l chain = All-impl _ _ chain (λ b held. if-Returns (a == b) (l, refl) held)

chains :
    (links : ℕ → Option Link) (by_port : ℕ → List ℕ) (p : ℕ) (chain : List ℕ) (port : ℕ)
    → ((port : ℕ) → AreHeld links (by_port port))
    → AreHeld links chain
    → AreHeld links (put_at by_port p chain port)
unfolding put_at
chains links by_port p chain port c h = elim (Bool-cases (p == port)) [
  | inl same ↦ rw same h
  | inr other ↦ rw other (c port)
]

removed-IsChained :
    (s : Sock) (a : ℕ) (l : Link) (chain : List ℕ) (now : Time)
    → IsChained s
    → AreHeld s.links chain
    → IsChained (removed s a l chain now)
unfolding removed
removed-IsChained s a l chain now c h port =
    put_at-AreHeld s.links a _ _ (chains s.links s.by_port l.port chain port c h)

-- The call returns, with a result that meets a condition.
abbrev Meets {ℓ} : {A : Type ℓ} → (A → Type 0) → Option A → Type ℓ
Meets {A = A} P o = (x : A) × (o ≡ some x) × P x

if-Meets {ℓ} :
    {A : Type ℓ} {x y : Option A} (P : A → Type 0) (c : Bool)
    → Meets P x
    → Meets P y
    → Meets P (if c then x else y)
if-Meets P true p q = p
if-Meets P false p q = q

bind-Meets {ℓ κ} :
    {A : Type ℓ} {B : Type κ} (P : B → Type 0) (o : Option A) (f : A → Option B) (x : A)
    → o ≡ some x
    → Meets P (f x)
    → Meets P (o >>= f)
bind-Meets P none f x e m = absurd cc
bind-Meets P (some a) f x e m = subst (λ b. Meets P (f b)) (sym (some-injective e)) m

-- The chains stay in memory.
abbrev DeletesChained : Bool × Sock × List Datagram → Type 0
DeletesChained r = IsChained (r.1)

abbrev pub WalksChained : Walked → Type 0
WalksChained r = IsChained r.sock

del_list-Meets :
    (s : Sock) (a : ℕ) (now : Time)
    → IsChained s
    → Returns (s.links a)
    → Meets DeletesChained (del_list s a now)
unfolding del_list send_msg
del_list-Meets s a now c (l, at) =
    let (chain, e, held) = unchain-AreHeld s.links l.ip s.socket (s.by_port l.port) (c l.port) in
    bind-Meets DeletesChained (s.links a) _ l at (
      if-Meets DeletesChained (ltb 4095 l.id || not (is_some (s.by_id l.id))) (_, refl, c)
        (bind-Meets DeletesChained (unchain s.links l.ip s.socket (s.by_port l.port)) _ chain e
          (_, refl, removed-IsChained s a l chain now c held)))

settle-Meets :
    (s : Sock) (a : ℕ) (l : Link) (now : Time) (o : Option (Sock × Link × List Datagram))
    → IsChained s
    → Returns (s.links a)
    → ListensSame s o
    → Meets WalksChained (settle s a l now o)
unfolding settle
settle-Meets s a l now none c at same =
    let (r, e, c') = del_list-Meets s a now c at in
    bind-Meets WalksChained (del_list s a now) _ r e (_, refl, c')
settle-Meets s a l now (some (s', l', out)) c at (order, links, ports) = (
  _,
  refl,
  λ port. put_at-AreHeld s'.links a l' (s'.by_port port) (
      subst (λ f. AreHeld f (s'.by_port port)) (sym links)
        (subst (λ f. AreHeld s.links (f port)) (sym ports) (c port))),
)

visit-Meets :
    (interval times : ℕ) (s : Sock) (a : ℕ) (l : Link) (t : Turn)
    → IsChained s
    → Returns (s.links a)
    → Meets WalksChained (visit interval times s a l t)
unfolding visit
visit-Meets interval times s a l t c at =
    let (o, e) = listen_link-Returns interval times s l t.now t.bytes in
    bind-Meets WalksChained (listen_link interval times s l t.now t.bytes) _ o e (
      settle-Meets s a l t.now o c at
        (listen_link-ListensSame interval times s l t.now t.bytes o e))

-- The list is looked at to its end.
sweep-Meets :
    (interval times : ℕ) (ts : List Turn) (pre bs : List ℕ) (s : Sock)
    → length bs ≤ length ts
    → Stands pre bs s
    → IsChained s
    → Meets WalksChained (sweep interval times ts bs s)
unfolding sweep after
sweep-Meets interval times ts pre [] s h st c = (_, refl, c)
sweep-Meets interval times [] pre (a ∷ rest) s h st c = absurd (omega arith)
sweep-Meets interval times (t ∷ ts) pre (a ∷ rest) s h st c =
    let (l, at, alive) = st.linked.0 in
    let (r, e, c') = visit-Meets interval times s a l t c (l, at) in
    let (pre', st') =
      turned-Stands pre rest a s r.sock st (visit-IsTurned interval times s a l t r e) in
    let (more, e', c'') = sweep-Meets interval times ts pre' rest r.sock (omega arith) st' c' in
    bind-Meets WalksChained (s.links a) _ l at (
      bind-Meets WalksChained (visit interval times s a l t) _ r e (
        bind-Meets WalksChained (sweep interval times ts rest r.sock) _ more e'
          (after r more, refl, c'')))

nothing_passed : (bs : List ℕ) → All (λ a. All (λ b. b ≢ a) []) bs
nothing_passed [] = tt
nothing_passed (b ∷ bs) = (tt, nothing_passed bs)

-- If the other threads do nothing meanwhile, then the walk over a list of distinct links that are in
-- memory and not deleted, with the chains of all ports in memory, comes to its end within as many turns
-- as there are links, though links leave the list on the way; it has looked at each link of the list as
-- it stood before once, in its order.
pub walk_sweeps :
    (interval times : ℕ) (ts : List Turn) (s : Sock)
    → length s.list ≤ length ts
    → All IsQuiet ts
    → IsDistinct s.list
    → AreLinked s.list s
    → IsChained s
    → (r : Walked) × (sweep interval times ts s.list s ≡ some r)
      × (walk interval times ts (list_begin s.list) s ≡ some (true, r))
walk_sweeps interval times ts s h q d live c =
    let st : Stands [] s.list s = record {
      parts = refl;
      apart = nothing_passed s.list;
      distinct = d;
      linked = live;
    } in
    let (r, e, _) = sweep-Meets interval times ts [] s.list s h st c in
    (r, e, walk-sweep interval times ts [] s.list s h q st ∙ ap (λ o. o >>= finished) e)
