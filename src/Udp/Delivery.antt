-- ===== src/Udp/Delivery.antt =====
-- Messages are delivered in order, each once, over the channel of Udp/Channel.antt.
use utils_modules.Base.{
  ℕ, suc, ◌+◌, ◌-◌, ◌≡◌, inl, List, ◌++◌, length, arith, refl, ap, sym, ◌∙◌, subst, All,
}
use utils_modules.Base.Table.{table, table-append}
use utils_modules.Udp.Channel.{
  Channel, next_sent, next_read, Step, Reach, IsFresh, sends, fails, data_comes, reads, reported,
  check_comes, report_comes, lack_comes, receiver_greeted, sender_greeted, here, next,
}
use utils_modules.Udp.Greetings.{Greets-IsReceiver, Greets-IsSender}
use utils_modules.Udp.Invariant.{OnWire, IsReport, IsChannel}
use utils_modules.Udp.Steps.{step-sends, step-fails, step-data, step-reads}
use utils_modules.Udp.Returns.{step-reported, step-check, step-report, step-lack}

module _ (msg : ℕ → List ℕ) where
  abbrev IsGood : Channel → Type 0
  IsGood c = IsChannel msg (next_sent c) (next_read c) c

  IsChannel-IsGood :
      {sent read : ℕ} {c c' : Channel} → c' ≡ c → IsChannel msg sent read c → IsGood c'
  IsChannel-IsGood {sent} {read} {c} {c'} e v =
      subst IsGood (sym e) (
        subst (λ s. IsChannel msg s (next_read c) c) v.0
          (subst (λ r. IsChannel msg sent r c) v.1 v))

  Step-IsGood : {c c' : Channel} → Step msg c c' → IsGood c → IsGood c'
  Step-IsGood {c} (sends interval s s' buf len now d l e lo hi m run eq) v =
      IsChannel-IsGood eq (step-sends msg _ _ c interval s s' buf len now d l v e lo hi m run)
  Step-IsGood {c} (fails interval s s' buf len now l e lo hi m run eq) v =
      IsChannel-IsGood eq (step-fails msg _ _ c interval s s' buf len now l v e lo hi m run)
  Step-IsGood {c} (data_comes i t d s at age eq) v =
      IsChannel-IsGood eq (step-data msg _ _ c i t d s v at age)
  Step-IsGood {c} (reads fuel buf out n now l ds run eq) v =
      IsChannel-IsGood eq (step-reads msg _ _ c fuel buf out n now l ds v run)
  Step-IsGood {c} (reported fuel now r d ds run o eq) v =
      IsChannel-IsGood eq (step-reported msg _ _ c fuel now r d ds v run o)
  Step-IsGood {c} (check_comes s s' pa r run eq) v =
      IsChannel-IsGood eq (step-check msg _ _ c s s' pa r v run)
  Step-IsGood {c} (report_comes i t d echo now at age eq) v =
      IsChannel-IsGood eq (step-report msg _ _ c i t d echo now v at age)
  Step-IsGood {c} (lack_comes pa r run eq) v = IsChannel-IsGood eq (step-lack msg _ _ c pa r v run)
  Step-IsGood {c} (receiver_greeted pa l g eq) v =
      IsChannel-IsGood eq
        (v.0, v.1, v.2, v.3, Greets-IsReceiver msg _ _ c.receiver l pa g v.4, v.5, v.6, v.7, v.8)
  Step-IsGood {c} (sender_greeted pa l g eq) v =
      let (acked, below, s) = v.3 in
      IsChannel-IsGood eq (
        v.0,
        v.1,
        v.2,
        (acked, below, Greets-IsSender msg _ _ c.sender l pa g s),
        v.4,
        v.5,
        v.6,
        v.7,
        v.8,
      )

  IsFresh-IsGood : (c : Channel) → IsFresh c → IsGood c
  IsFresh-IsGood c (up, acked, max, up', read, empty, none_sent, none_read, no_wire, no_reports) =
      let first : ℕ → List ℕ = λ i. msg (suc i) in
      let start : IsChannel msg 1 1 c = (
        sym (ap (λ a. suc (length a)) none_sent),
        sym (ap (λ a. suc (length a)) none_read),
        omega arith,
        (0, omega arith, (up, acked, max, omega arith, omega arith, λ n a b. absurd (omega arith))),
        (up', read, λ i lt. inl (empty i)),
        subst (λ a. a ≡ table (length a) first) (sym none_sent) refl,
        subst (λ a. a ≡ table (length a) first) (sym none_read) refl,
        subst (All (OnWire msg 1)) (sym no_wire) tt,
        subst (All (IsReport msg 1)) (sym no_reports) tt,
      ) in
      IsChannel-IsGood {c = c} refl start

  Reach-IsGood : {c d : Channel} → IsGood c → Reach msg c d → IsGood d
  Reach-IsGood v here = v
  Reach-IsGood v (next r st) = Step-IsGood st (Reach-IsGood v r)

  -- Over a channel of two links that were just set up, after any sequence of rounds of `exSend` and
  -- `exRecv`, of datagrams lost, repeated and reordered, of reports, of resent packets, and of requests,
  -- answers and confirmations of the link by a side that is connected, the messages that `exRecv` gave are
  -- the first of those that `exSend` took, in the same order and each once. No request or answer comes that
  -- was sent by a side before it was connected. A
  -- datagram with data comes at the latest when 1024 packets are read that were not sent when it
  -- was, and a report when 2043 packets are sent.
  pub delivers_in_order :
      (c d : Channel)
      → IsFresh c
      → Reach msg c d
      → (rest : List (List ℕ)) × (d.accepted ≡ d.delivered ++ rest)
  delivers_in_order c d fresh r =
      let v = Reach-IsGood (IsFresh-IsGood c fresh) r in
      let given : ℕ = length d.delivered in
      let left : ℕ = length d.accepted - given in
      let rest : List (List ℕ) = table left (λ i. msg (suc (given + i))) in
      (
        rest,
        v.5
            ∙ table-append given left (length d.accepted) (λ i. msg (suc i))
                (λ i. msg (suc (given + i))) (omega (arith, v.2)) (λ i lt. refl)
            ∙ ap (λ t. t ++ rest) (sym v.6),
      )
