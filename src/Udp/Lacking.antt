-- ===== src/Udp/Lacking.antt =====
-- The list of lacking packets that `SeqLack` sends, udp/ex_udp.c: the loop ends, and the list has just
-- the packets that are not in their entries.
use utils_modules.Base.{
  ℕ, zero, suc, ◌+◌, ◌-◌, ◌*◌, ◌/◌, ◌%◌, ◌≤◌, ◌<◌, ◌≡◌, inl, inr, true, false, List, [], ◌∷◌, ◌++◌,
  length, take, set, arith, refl, ap, ap₂, ◌∙◌, Bool-cases, some, ◌==◌, length-set,
}
use utils_modules.Udp.{Link, holds, next_seq, send_msg}
use utils_modules.Udp.Messages.{
  Lacks, put_word, get_words, lack_write, lack_full, lack_one, lack_loop,
}

-- The loop body does not leave the program.
lack_full-Sends : (l : Link) (s : Lacks) → (s' : Lacks) × (lack_full l s ≡ some s')
unfolding lack_full send_msg
lack_full-Sends l s = (_, refl)

lack_one-Ends : (l : Link) (s : Lacks) (seq : ℕ) → (s' : Lacks) × (lack_one l s seq ≡ some s')
unfolding lack_one
lack_one-Ends l s seq = elim (Bool-cases (holds l.recv_slots seq)) [
  | inl h ↦ (s, rw h refl)
  | inr h ↦ elim (Bool-cases ((s.count + 1) * 2 % 1464 == 0)) [
    | inl full ↦ let (s', e) = lack_full-Sends l (lack_write s seq) in (s', rw (h, full) e)
    | inr more ↦ (lack_write s seq, rw (h, more) refl)
  ]
]

lack_loop-Ends :
    (d fuel : ℕ) (l : Link) (s : Lacks) (seq : ℕ)
    → l.seq_read_max < 2044
    → d ≡ (l.seq_read_max + 2044 - (seq + 1) % 2044) % 2044
    → d < fuel
    → (s' : Lacks) × (lack_loop fuel l s seq ≡ some s')
unfolding lack_loop next_seq
lack_loop-Ends d zero l s seq m e lt = absurd (omega arith)
lack_loop-Ends zero (suc fuel) l s seq m e lt =
    let (s', one) = lack_one-Ends l s seq in
    let last : ((seq + 1) % 2044 == l.seq_read_max) ≡ true = ground arith in
    (s', rw (one, last) refl)
lack_loop-Ends (suc d) (suc fuel) l s seq m e lt =
    let (s', one) = lack_one-Ends l s seq in
    let again : ((seq + 1) % 2044 == l.seq_read_max) ≡ false = ground arith in
    let (s'', rest) = lack_loop-Ends d fuel l s' ((seq + 1) % 2044) m (omega arith) (omega arith) in
    (s'', rw (one, again, rest) refl)

-- Wherever the receiver stands, if the number that the sender reported is one of a packet, then the
-- loop of `SeqLack` ends within 2044 rounds.
pub lack_loop_ends :
    (fuel : ℕ) (l : Link) (s : Lacks) (seq : ℕ)
    → l.seq_read_max < 2044
    → 2044 ≤ fuel
    → (s' : Lacks) × (lack_loop fuel l s seq ≡ some s')
lack_loop_ends fuel l s seq m h =
    lack_loop-Ends ((l.seq_read_max + 2044 - (seq + 1) % 2044) % 2044) fuel l s seq m refl
      (omega arith)

-- The bytes of a list of words.
abbrev pub bytes_of : List ℕ → List ℕ
bytes_of [] = []
bytes_of (w ∷ ws) = (w % 256) ∷ (w / 256) ∷ bytes_of ws

-- A list of words is read back from a buffer that starts with its bytes.
pub get_words-bytes_of : (ws rest : List ℕ) → get_words (length ws) (bytes_of ws ++ rest) ≡ ws
unfolding get_words
get_words-bytes_of [] rest = refl
get_words-bytes_of (w ∷ ws) rest =
    ap₂ ◌∷◌ (let e : w % 256 + 256 * (w / 256) ≡ w = omega arith in e) (get_words-bytes_of ws rest)

pub bytes_of-append : (xs ys : List ℕ) → bytes_of (xs ++ ys) ≡ bytes_of xs ++ bytes_of ys
bytes_of-append [] ys = refl
bytes_of-append (x ∷ xs) ys = ap (λ t. (x % 256) ∷ (x / 256) ∷ t) (bytes_of-append xs ys)

pub length-put_word : (buf : List ℕ) (offset w : ℕ) → length (put_word buf offset w) ≡ length buf
unfolding put_word
length-put_word buf offset w =
    length-set (set buf offset (w % 256)) (offset + 1) (w / 256) ∙ length-set buf offset (w % 256)

pub take-put_word :
    (buf : List ℕ) (offset w : ℕ)
    → offset + 2 ≤ length buf
    → take (offset + 2) (put_word buf offset w) ≡ take offset buf ++ ((w % 256) ∷ (w / 256) ∷ [])
unfolding put_word
take-put_word [] offset w h = absurd (omega arith)
take-put_word (x ∷ []) offset w h = absurd (omega arith)
take-put_word (x ∷ y ∷ buf) zero w h = refl
take-put_word (x ∷ y ∷ buf) (suc offset) w h =
    let e : suc offset + 2 ≡ suc (offset + 2) = omega arith in
    let f : suc offset + 1 ≡ suc (offset + 1) = omega arith in
    rw (e, f) (ap (λ t. x ∷ t) (take-put_word (y ∷ buf) offset w (omega arith)))
