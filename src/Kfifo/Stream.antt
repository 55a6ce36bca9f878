-- ===== src/Kfifo/Stream.antt =====
-- A FIFO in use: sequences of `kfifo_put` and `kfifo_get`.
use utils_modules.Base.{
  ℕ, ◌≤◌, min, ◌≡◌, refl, sym, ap, ◌∙◌, List, [], ◌∷◌, Option, some, ◌++◌, arith, length, take,
  drop, ◌>>=◌, All, append-nil, append_assoc, take-append-drop, take-append_length, length-take,
}
use utils_modules.Kfifo.Queue
use utils_modules.Kfifo.{Kfifo, put, locked_get}
use utils_modules.Kfifo.Contents.{contents}
use utils_modules.Kfifo.Valid.{IsValid}
use utils_modules.Kfifo.Refine.{put_refines, locked_get_refines}

-- A call of a client: `kfifo_put` of `n` bytes of a buffer, or `kfifo_get` of `n` bytes into one.
pub data Op : Type 0 where
  puts : List ℕ → ℕ → Op
  gets : List ℕ → ℕ → Op

-- The buffer of the call holds at least `n` bytes.
abbrev pub Fits : Op → Type 0
Fits (puts src n) = n ≤ length src
Fits (gets dst n) = n ≤ length dst

-- The bytes taken by the calls, the bytes delivered by them, and the last state.
pub record Trace : Type 0 where
  pub accepted : List ℕ
  pub delivered : List ℕ
  pub state : Kfifo

pub step : Kfifo → Op → Option Trace
step f (puts src n) = do
  (count, f') ← put f src n
  some (record { accepted = take count src; delivered = []; state = f' })
step f (gets dst n) = do
  (count, out, f') ← locked_get f dst n
  some (record { accepted = []; delivered = take count out; state = f' })

pub run : Kfifo → List Op → Option Trace
run f [] = some (record { accepted = []; delivered = []; state = f })
run f (op ∷ ops) = do
  t ← step f op
  u ← run t.state ops
  some (record {
    accepted = t.accepted ++ u.accepted;
    delivered = t.delivered ++ u.delivered;
    state = u.state;
  })

-- What a call or a run of calls does to the bytes held.
abbrev Conserves : Kfifo → Trace → Type 0
Conserves f t = contents f ++ t.accepted ≡ t.delivered ++ contents t.state

put_keeps :
    (cap : ℕ) (q src : List ℕ) (n count : ℕ) (q' : List ℕ)
    → (count, q') ≡ Queue.put cap q src n
    → q ++ take count src ≡ q'
unfolding Queue.put
put_keeps cap q src n count q' e = rw (ap (λ t. t.0) e) (sym (ap (λ t. t.1) e))

get_keeps :
    (q dst : List ℕ) (n count : ℕ) (out q' : List ℕ)
    → (count, out, q') ≡ Queue.get q dst n
    → q ++ [] ≡ take count out ++ q'
unfolding Queue.get
get_keeps q dst n count out q' e =
    let c : ℕ = min n (length q) in
    rw
      (
        ap (λ t. t.0) e,
        ap (λ t. t.1) e,
        ap (λ t. t.2) e,
        append-nil q,
        take-append_length (take c q) (drop c dst) c (omega (arith, length-take c q)),
      )
      (sym (take-append-drop c q))

step-Conserves :
    {f : Kfifo} (v : IsValid f) (op : Op)
    → Fits op
    → (t : Trace) × (step f op ≡ some t) × IsValid t.state × Conserves f t
unfolding step
step-Conserves {f} v (puts src n) h =
    let (count, f', done, v', same, agrees) = put_refines v src n h in
    (
      record { accepted = take count src; delivered = []; state = f' },
      rw done,
      v',
      put_keeps f.size (contents f) src n count _ agrees,
    )
step-Conserves {f} v (gets dst n) h =
    let (count, out, f', done, v', same, agrees) = locked_get_refines v dst n h in
    (
      record { accepted = []; delivered = take count out; state = f' },
      rw done,
      v',
      get_keeps (contents f) dst n count out _ agrees,
    )

regroup :
    (held ins ins' outs outs' mid held' : List ℕ)
    → held ++ ins ≡ outs ++ mid
    → mid ++ ins' ≡ outs' ++ held'
    → held ++ (ins ++ ins') ≡ (outs ++ outs') ++ held'
regroup held ins ins' outs outs' mid held' p q =
    sym (append_assoc held ins ins')
    ∙ ap (λ t. t ++ ins') p
    ∙ append_assoc outs mid ins'
    ∙ ap (λ t. outs ++ t) q
    ∙ sym (append_assoc outs outs' held')

-- From a valid FIFO, any sequence of `kfifo_put` and `kfifo_get` calls on buffers of at least the
-- lengths given runs without an access outside a buffer and ends in a valid FIFO, and the bytes
-- held at the start followed by the bytes taken are the bytes delivered followed by the bytes held
-- at the end: none is lost, invented, repeated or reordered.
pub run_conserves :
    (f : Kfifo)
    → IsValid f
    → (ops : List Op) → All Fits ops
    → (t : Trace) × (run f ops ≡ some t)
      × IsValid t.state
      × (contents f ++ t.accepted ≡ t.delivered ++ contents t.state)
unfolding run
run_conserves f v [] h =
    (record { accepted = []; delivered = []; state = f }, refl, v, append-nil (contents f))
run_conserves f v (op ∷ ops) h =
    let (t, one, v', p) = step-Conserves v op h.0 in
    let (u, rest, v'', q) = run_conserves t.state v' ops h.1 in
    (
      record {
        accepted = t.accepted ++ u.accepted;
        delivered = t.delivered ++ u.delivered;
        state = u.state;
      },
      rw (one, rest),
      v'',
      regroup (contents f) t.accepted u.accepted t.delivered u.delivered _ _ p q,
    )
