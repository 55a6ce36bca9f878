-- ===== src/Udp/Round/Sweep.antt =====
-- The walk of `thread_listen` of udp/ex_udp.c along the list, and a plain pass over it.
use utils_modules.Base.{
  ℕ, ◌≤◌, ◌≡◌, ◌≢◌, refl, sym, ap, ◌∙◌, inl, inr, arith, Bool, true, false, List, [], ◌∷◌, ◌++◌,
  Option, none, some, if◌then◌else◌, ◌>>=◌, All, All-append, append_assoc, ◌==◌, length,
}
use utils_modules.Udp.{Link}
use utils_modules.Udp.Sock.{Sock, list_erase}
use utils_modules.Udp.Table.{list_next}
use utils_modules.Udp.Round.{list_begin, is_deleted, Turn, Walked, after, visit, walk}
use utils_modules.Udp.Round.Keeps.{IsTurned, visit-IsTurned}

-- Each link of a list is looked at, in its order; `none` if the turns end before.
unfoldable pub sweep : ℕ → ℕ → List Turn → List ℕ → Sock → Option Walked
sweep interval times ts [] s = some (record { sock = s; out = []; told = [] })
sweep interval times [] (a ∷ bs) s = none
sweep interval times (t ∷ ts) (a ∷ bs) s = s.links a >>= (λ l.
    visit interval times s a l t
    >>= (λ r. sweep interval times ts bs r.sock >>= (λ more. some (after r more))))

-- The links of a list are in memory and not deleted.
abbrev pub AreLinked : List ℕ → Sock → Type 0
AreLinked bs s = All (λ a. (l : Link) × (s.links a ≡ some l) × (is_deleted l.link_state ≡ false)) bs

-- No address is in a list twice.
abbrev pub IsDistinct : List ℕ → Type 0
IsDistinct [] = Unit
IsDistinct (a ∷ bs) = All (λ b. b ≢ a) bs × IsDistinct bs

-- The other threads do nothing before a turn.
abbrev pub IsQuiet : Turn → Type 0
IsQuiet t = (s : Sock) → t.change s ≡ s

list_next-found :
    (a : ℕ) (pre rest : List ℕ)
    → All (λ b. b ≢ a) pre
    → list_next a (pre ++ (a ∷ rest)) ≡ list_begin rest
unfolding list_next list_begin
list_next-found a [] [] n = refl
list_next-found a [] (x ∷ rest) n = (let same : (a == a) ≡ true = ground arith in rw same refl)
list_next-found a (x ∷ []) rest (n, _) =
    let other : (x == a) ≡ false = ground arith in rw other (list_next-found a [] rest tt)
list_next-found a (x ∷ y ∷ pre) rest (n, more) =
    let other : (x == a) ≡ false = ground arith in rw other (list_next-found a (y ∷ pre) rest more)

list_erase-found :
    (a : ℕ) (pre rest : List ℕ)
    → All (λ b. b ≢ a) pre
    → list_erase a (pre ++ (a ∷ rest)) ≡ pre ++ rest
unfolding list_erase
list_erase-found a [] rest n = (let same : (a == a) ≡ true = ground arith in rw same refl)
list_erase-found a (x ∷ pre) rest (n, more) =
    let other : (a == x) ≡ false = ground arith in
    rw other (ap (λ xs. x ∷ xs) (list_erase-found a pre rest more))

-- What the walk has behind it and before it.
pub record Stands (pre bs : List ℕ) (s : Sock) : Type 0 where
  pub parts : s.list ≡ pre ++ bs
  pub apart : All (λ a. All (λ b. b ≢ a) pre) bs
  pub distinct : IsDistinct bs
  pub linked : AreLinked bs s

kept-AreLinked :
    (bs : List ℕ) (a : ℕ) (s s' : Sock)
    → All (λ b. b ≢ a) bs
    → ((b : ℕ) → b ≢ a → s'.links b ≡ s.links b)
    → AreLinked bs s
    → AreLinked bs s'
kept-AreLinked [] a s s' n k h = tt
kept-AreLinked (b ∷ bs) a s s' (nb, n) k ((l, at, alive), h) =
    ((l, k b nb ∙ at, alive), kept-AreLinked bs a s s' n k h)

further :
    (a : ℕ) (pre bs : List ℕ)
    → All (λ b. b ≢ a) bs
    → All (λ b. All (λ c. c ≢ b) pre) bs
    → All (λ b. All (λ c. c ≢ b) (pre ++ (a ∷ []))) bs
further a pre [] n h = tt
further a pre (b ∷ bs) (nb, n) (hb, h) =
    (All-append (λ c. c ≢ b) pre (a ∷ []) hb ((λ e. nb (sym e)), tt), further a pre bs n h)

-- After a turn for the first link before it, it stands behind that link.
pub turned-Stands :
    (pre rest : List ℕ) (a : ℕ) (s s' : Sock)
    → Stands pre (a ∷ rest) s
    → IsTurned a s s'
    → (pre' : List ℕ) × Stands pre' rest s'
turned-Stands pre rest a s s' st (order, links) =
    let linked : AreLinked rest s' =
      kept-AreLinked rest a s s' (st.distinct.0) links (st.linked.1) in
    elim order [
      | inl same ↦ (
        pre ++ (a ∷ []),
        record {
          parts = same ∙ (st.parts ∙ sym (append_assoc pre (a ∷ []) rest));
          apart = further a pre rest (st.distinct.0) (st.apart.1);
          distinct = st.distinct.1;
          linked = linked;
        },
      )
      | inr erased ↦ (
        pre,
        record {
          parts = erased ∙ (ap (list_erase a) st.parts ∙ list_erase-found a pre rest (st.apart.0));
          apart = st.apart.1;
          distinct = st.distinct.1;
          linked = linked;
        },
      )
    ]

-- The walk came to its end.
abbrev pub finished : Walked → Option (Bool × Walked)
finished r = some (true, r)

-- The result of a turn, before what follows it.
abbrev follow : Walked → Bool × Walked → Option (Bool × Walked)
follow r more = some (more.0, after r (more.1))

abbrev join : Walked → Walked → Option Walked
join r more = some (after r more)

follow-finished :
    (r : Walked) (m : Option Walked) → (m >>= finished) >>= follow r ≡ (m >>= join r) >>= finished
follow-finished r none = refl
follow-finished r (some m) = refl

turn_then :
    (o : Option Walked) (go : Walked → Option (Bool × Walked)) (look : Walked → Option Walked)
    → ((r : Walked) → o ≡ some r → go r ≡ (look r >>= finished))
    → o >>= (λ r. go r >>= follow r) ≡ (o >>= (λ r. look r >>= join r)) >>= finished
turn_then none go look k = refl
turn_then (some r) go look k = ap (λ o. o >>= follow r) (k r refl) ∙ follow-finished r (look r)

pub walk-sweep :
    (interval times : ℕ) (ts : List Turn) (pre bs : List ℕ) (s : Sock)
    → length bs ≤ length ts
    → All IsQuiet ts
    → Stands pre bs s
    → walk interval times ts (list_begin bs) s ≡ (sweep interval times ts bs s >>= finished)
unfolding walk sweep list_begin
walk-sweep interval times ts pre [] s h q st = refl
walk-sweep interval times [] pre (a ∷ rest) s h q st = absurd (omega arith)
walk-sweep interval times (t ∷ ts) pre (a ∷ rest) s h (quiet, q) st =
    let (l, at, alive) = st.linked.0 in
    let next : list_next a s.list ≡ list_begin rest =
      ap (list_next a) st.parts ∙ list_next-found a pre rest (st.apart.0) in
    let round : Sock → Option (Bool × Walked) = λ s'. s'.links a >>= (λ l.
      if is_deleted l.link_state
      then walk interval times ts s'.next_listen_link s'
      else visit interval times s' a l t
        >>= (λ r. walk interval times ts (list_next a s'.list) r.sock >>= follow r)) in
    let rest_of : (r : Walked)
        → visit interval times s a l t ≡ some r
        → walk interval times ts (list_next a s.list) r.sock
          ≡ (sweep interval times ts rest r.sock >>= finished) =
      λ r e.
        let (pre', st') =
          turned-Stands pre rest a s r.sock st (visit-IsTurned interval times s a l t r e) in
        ap (λ c. walk interval times ts c r.sock) next
        ∙ walk-sweep interval times ts pre' rest r.sock (omega arith) q st' in
    ap round (quiet s) ∙ rw (at, alive) (turn_then (visit interval times s a l t) _ _ rest_of)
