-- ===== src/Io/Write.antt =====
-- lib/utils_io.c: write_blockwise puts the bytes at the position and changes no others.
use cryptsetup.Base.{
  ℕ, ◌+◌, ◌-◌, ◌*◌, ◌/◌, ◌%◌, ◌≤◌, ◌<◌, ◌≡◌, refl, sym, ap, ap₂, ◌∙◌, arith, List, [], ◌∷◌, ◌++◌,
  append-nil, append_assoc,
}
use cryptsetup.Base.{
  length, take, drop, replicate, take-append-drop, take-append, drop-append, length-take,
  length-drop, length-append, true, false, ◌==◌, ◌||◌, not, ltb, Bool-cases, ◌⊎◌, inl, inr,
}
use cryptsetup.Base.{Option, none, some, if◌then◌else◌}
use native.Mathlib.Nat.{mul-le-mul_right, div-add-mod', mod-lt}
use cryptsetup.Luks2.Device.{splice, length-splice}
use cryptsetup.Io.{Event, Fd, lseek, read_buffer, write_buffer, fill_block}
use cryptsetup.Io.{and_then, write_solid, write_hangover, write_blockwise, write_front}
use cryptsetup.Io.Bytes.{splice-take, drop-drop}
use cryptsetup.Io.Buffer.{IsFair, at, read_loop-IsFair, write_loop-IsFair, write_buffer-IsFair}

-- Back to where a read began.
pub lseek_back :
    (offset n : ℕ) (b a : List ℕ) (events : List Event)
    → offset ≡ length b
    → lseek offset (at (b ++ take n a) (drop n a) events) ≡ at b a events
unfolding lseek
lseek_back offset n b a events e =
    let whole : (b ++ take n a) ++ drop n a ≡ b ++ a =
      append_assoc b (take n a) (drop n a) ∙ ap (λ x. b ++ x) (take-append-drop n a) in
    ap₂ (λ x y. at x y events) (ap (λ x. take offset x) whole ∙ take-append offset b a (sym e))
      (ap (λ x. drop offset x) whole ∙ drop-append offset b a (sym e))

fill_block_whole :
    (bsize : ℕ) (bytes : List ℕ) → length bytes ≡ bsize → fill_block bsize bytes ≡ bytes
fill_block_whole bsize bytes e =
    let none_missing : bsize - length bytes ≡ 0 = omega arith in
    ap (λ n. bytes ++ replicate n 0) none_missing ∙ append-nil bytes

-- A block that is read, changed and written again.
block_again :
    (bsize front : ℕ) (src b a : List ℕ) (events : List Event)
    → IsFair events
    → front + length src ≤ bsize
    → 0 < bsize
    → bsize ≤ length a
    → (events1 events2 : List Event) × IsFair events2
      × (read_buffer (at b a events) bsize
          ≡ (at (b ++ take bsize a) (drop bsize a) events1, some (take bsize a)))
      × (write_buffer (at b a events1) (splice front src (fill_block bsize (take bsize a)))
          ≡ (at (b ++ splice front src (take bsize a)) (drop bsize a) events2, some bsize))
block_again bsize front src b a events fair fits pos room =
    let (events1, fair1, e1) = read_loop-IsFair events bsize b a fair in
    let size : length (take bsize a) ≡ bsize = omega (arith, length-take bsize a) in
    let block = splice front src (take bsize a) in
    let block_size : length block ≡ bsize =
      length-splice front src (take bsize a) (omega arith) ∙ size in
    let (events2, fair2, e2) =
      write_buffer-IsFair events1 block b a fair1 (omega arith) (omega arith) in
    (
      events1,
      events2,
      fair2,
      e1,
      ap (λ x. write_buffer (at b a events1) (splice front src x))
            (fill_block_whole bsize (take bsize a) size)
          ∙ e2
          ∙ ap (λ n. (at (b ++ block) (drop n a) events2, some n)) block_size,
    )

write_hangover-eq :
    (fd fd1 fd2 fd3 : Fd) (bsize w : ℕ) (h bytes : List ℕ)
    → read_buffer fd bsize ≡ (fd1, some bytes)
    → lseek (length fd1.before - length bytes) fd1 ≡ fd2
    → write_buffer fd2 (splice 0 h (fill_block bsize bytes)) ≡ (fd3, some w)
    → ltb w (length h) ≡ false
    → write_hangover fd bsize h ≡ (fd3, some tt)
unfolding write_hangover and_then
write_hangover-eq fd fd1 fd2 fd3 bsize w h bytes e1 e2 e3 e4 =
    let change : Fd → List ℕ → Fd × Option (Unit {0}) = λ f x.
      and_then (write_buffer f (splice 0 h (fill_block bsize x)))
        (λ g n. (g, if ltb n (length h) then none else some tt)) in
    ap (λ m. and_then m (λ f x. change (lseek (length f.before - length x) f) x)) e1
    ∙ ap (λ f. change f bytes) e2
    ∙ ap (λ m. and_then m (λ g n. (g, if ltb n (length h) then none else some tt))) e3
    ∙ rw e4 refl

write_front-eq :
    (fd fd1 fd2 fd3 : Fd) (bsize front w : ℕ) (inner bytes : List ℕ)
    → read_buffer fd bsize ≡ (fd1, some bytes)
    → ltb (length bytes) (front + length inner) ≡ false
    → lseek (length fd.before) fd1 ≡ fd2
    → write_buffer fd2 (splice front inner (fill_block bsize bytes)) ≡ (fd3, some w)
    → (w == bsize) ≡ true
    → write_front fd bsize front inner ≡ (fd3, some tt)
unfolding write_front and_then
write_front-eq fd fd1 fd2 fd3 bsize front w inner bytes e1 e2 e3 e4 e5 =
    let change : Fd → List ℕ → Fd × Option (Unit {0}) = λ f x.
      and_then (write_buffer f (splice front inner (fill_block bsize x)))
        (λ g n. (g, if n == bsize then some tt else none)) in
    ap
      (λ m. and_then m (λ f x.
        if ltb (length x) (front + length inner)
        then (f, none)
        else change (lseek (length fd.before) f) x))
      e1
    ∙ ap (λ t. if t then (fd1, none) else change (lseek (length fd.before) fd1) bytes) e2
    ∙ ap (λ f. change f bytes) e3
    ∙ ap (λ m. and_then m (λ g n. (g, if n == bsize then some tt else none))) e4
    ∙ rw e5 refl

write_hangover-IsFair :
    (bsize : ℕ) (h b a : List ℕ) (events : List Event)
    → IsFair events
    → length h ≤ bsize
    → 0 < bsize
    → bsize ≤ length a
    → (events' : List Event) × IsFair events'
      × (write_hangover (at b a events) bsize h
          ≡ (at (b ++ splice 0 h (take bsize a)) (drop bsize a) events', some tt))
write_hangover-IsFair bsize h b a events fair fits pos room =
    let (events1, events2, fair2, e1, e2) =
      block_again bsize 0 h b a events fair (omega arith) pos room in
    let size : length (take bsize a) ≡ bsize = omega (arith, length-take bsize a) in
    let start : length (b ++ take bsize a) - length (take bsize a) ≡ length b =
      omega (arith, length-append b (take bsize a)) in
    (
      events2,
      fair2,
      write_hangover-eq (at b a events) (at (b ++ take bsize a) (drop bsize a) events1)
          (at b a events1) (at (b ++ splice 0 h (take bsize a)) (drop bsize a) events2) bsize bsize
          h (take bsize a) e1
          (lseek_back (length (b ++ take bsize a) - length (take bsize a)) bsize b a events1 start)
          e2 (ground arith),
    )

pub write_front-IsFair :
    (bsize front : ℕ) (inner b a : List ℕ) (events : List Event)
    → IsFair events
    → front + length inner ≤ bsize
    → 0 < bsize
    → bsize ≤ length a
    → (events' : List Event) × IsFair events'
      × (write_front (at b a events) bsize front inner
          ≡ (at (b ++ splice front inner (take bsize a)) (drop bsize a) events', some tt))
write_front-IsFair bsize front inner b a events fair fits pos room =
    let (events1, events2, fair2, e1, e2) =
      block_again bsize front inner b a events fair fits pos room in
    let size : length (take bsize a) ≡ bsize = omega (arith, length-take bsize a) in
    (
      events2,
      fair2,
      write_front-eq (at b a events) (at (b ++ take bsize a) (drop bsize a) events1)
          (at b a events1) (at (b ++ splice front inner (take bsize a)) (drop bsize a) events2)
          bsize front bsize inner (take bsize a) e1 (ground arith)
          (lseek_back (length b) bsize b a events1 refl) e2 (ground arith),
    )

-- A length that is not a multiple of the block size leaves room for a whole block.
pub block_room :
    (q m bsize h : ℕ) → q * bsize + h ≤ m * bsize → 0 < h → q * bsize + bsize ≤ m * bsize
block_room q m bsize h le pos = elim (lt_or_le q m) [
  | inl lt ↦
      let whole : (q + 1) * bsize ≤ m * bsize = mul-le-mul_right bsize (omega arith) in grind arith
  | inr ge ↦ let less : m * bsize ≤ q * bsize = mul-le-mul_right bsize ge in absurd (omega arith)
]
  where
    lt_or_le : (q m : ℕ) → (q < m) ⊎ (m ≤ q)
    lt_or_le q m = elim (Bool-cases (ltb q m)) [
      | inl h ↦ inl (ground arith)
      | inr h ↦ inr (ground arith)
    ]

pub mod_parts :
    (n bsize : ℕ) → 0 < bsize → (n / bsize * bsize + n % bsize ≡ n) × (n % bsize < bsize)
mod_parts n bsize pos = (div-add-mod' n bsize, mod-lt n pos)

-- What a write leaves: the bytes put at the position, and no other change.
abbrev pub Wrote : Fd × Option ℕ → List ℕ → List ℕ → List ℕ → Type 0
Wrote run b src a =
    (fd : Fd) × (run ≡ (fd, some (length src))) × (fd.before ++ fd.after ≡ b ++ splice 0 src a)

write_solid-IsFair :
    (src b a : List ℕ) (events : List Event)
    → IsFair events
    → length src ≤ length a
    → (events' : List Event) × IsFair events'
      × (write_solid (at b a events) src
          ≡ (at (b ++ src) (drop (length src) a) events', some (length src)))
write_solid-IsFair [] b a events fair room =
    (events, fair, ap (λ x. (at x a events, some 0)) (sym (append-nil b)))
write_solid-IsFair (x ∷ src) b a events fair room =
    let some_bytes : (length (x ∷ src) == 0) ≡ false = ground arith in
    let (events', fair', e) = write_loop-IsFair events (x ∷ src) b a fair (omega arith) room in
    (events', fair', rw some_bytes e)

-- A write in two pieces.
pieces :
    (n : ℕ) (src b a : List ℕ)
    → n ≤ length src
    → (b ++ take n src) ++ splice 0 (drop n src) (drop n a) ≡ b ++ splice 0 src a
unfolding splice
pieces n src b a le =
    let back : List ℕ = drop (length (drop n src)) (drop n a) in
    append_assoc b (take n src) (drop n src ++ back)
    ∙ ap (λ x. b ++ x)
        (sym (append_assoc (take n src) (drop n src) back)
          ∙ ap₂ (λ x y. x ++ y) (take-append-drop n src)
              (drop-drop (length (drop n src)) n (length src) a (omega (arith, length-drop n src))))

pub splice_nothing : (offset : ℕ) (src xs : List ℕ) → length src ≡ 0 → splice offset src xs ≡ xs
unfolding splice
splice_nothing offset [] xs e = take-append-drop offset xs
splice_nothing offset (x ∷ src) xs e = absurd (omega arith)

write_blockwise-eq :
    (fd fd1 : Fd) (bsize alignment solid : ℕ) (src : List ℕ) (r : Fd × Option ℕ)
    → (bsize == 0 || alignment == 0) ≡ false
    → length src - length src % bsize ≡ solid
    → write_solid fd (take solid src) ≡ (fd1, some solid)
    → (if length src % bsize == 0
        then (fd1, some (length src))
        else and_then
            (write_hangover fd1 bsize (drop solid src))
            (λ fd2 _. (fd2, some (length src))))
      ≡ r
    → write_blockwise fd bsize alignment src ≡ r
unfolding write_blockwise and_then
write_blockwise-eq fd fd1 bsize alignment solid src r checks e first last =
    let rest : ℕ → Fd → ℕ → Fd × Option ℕ = λ s f n.
      if not (n == s)
      then (f, none)
      else if length src % bsize == 0
      then (f, some (length src))
      else and_then (write_hangover f bsize (drop s src)) (λ g _. (g, some (length src))) in
    let whole : (solid == solid) ≡ true = ground arith in
    ap
      (λ t.
        if t
        then (fd, none)
        else and_then (write_solid fd (take (length src - length src % bsize) src))
            (rest (length src - length src % bsize)))
      checks
    ∙ ap (λ s. and_then (write_solid fd (take s src)) (rest s)) e
    ∙ ap (λ m. and_then m (rest solid)) first
    ∙ rw whole last

pub write_blockwise-Wrote :
    (bsize alignment m : ℕ) (src b a : List ℕ) (events : List Event)
    → IsFair events
    → 0 < bsize
    → 0 < alignment
    → length a ≡ m * bsize
    → length src ≤ length a
    → Wrote (write_blockwise (at b a events) bsize alignment src) b src a
unfolding and_then
write_blockwise-Wrote bsize alignment m src b a events fair pos pos' size room =
    let h : ℕ = length src % bsize in
    let q : ℕ = length src / bsize in
    let solid : ℕ = length src - h in
    let (parts, small) = mod_parts (length src) bsize pos in
    let solid_size : length (take solid src) ≡ solid = omega (arith, length-take solid src) in
    let (events1, fair1, e1) = write_solid-IsFair (take solid src) b a events fair (omega arith) in
    let fd1 : Fd = at (b ++ take solid src) (drop solid a) events1 in
    let first : write_solid (at b a events) (take solid src) ≡ (fd1, some solid) =
      e1 ∙ ap (λ n. (at (b ++ take solid src) (drop n a) events1, some n)) solid_size in
    let checks : (bsize == 0 || alignment == 0) ≡ false = ground arith in
    elim (Bool-cases (h == 0)) [
      | inl none_left ↦
          let all : solid ≡ length src = ground arith in
          let rest : length (drop solid src) ≡ 0 = omega (arith, length-drop solid src) in
          (
            fd1,
            write_blockwise-eq (at b a events) fd1 bsize alignment solid src
                (fd1, some (length src)) checks refl first (rw none_left refl),
            ap (λ x. (b ++ take solid src) ++ x)
                  (sym (splice_nothing 0 (drop solid src) (drop solid a) rest))
                ∙ pieces solid src b a (omega arith),
          )
      | inr some_left ↦
          let some_bytes : 0 < h = ground arith in
          let solid_q : q * bsize ≡ solid = omega arith in
          let room' = block_room q m bsize h (omega arith) some_bytes in
          let a_size : length (drop solid a) ≡ length a - solid = length-drop solid a in
          let h_size : length (drop solid src) ≡ h = omega (arith, length-drop solid src) in
          let (events2, fair2, e2) =
            write_hangover-IsFair bsize (drop solid src) (b ++ take solid src) (drop solid a)
              events1 fair1 (omega arith) pos (omega arith) in
          let block : List ℕ = splice 0 (drop solid src) (take bsize (drop solid a)) in
          let fd2 : Fd = at ((b ++ take solid src) ++ block) (drop bsize (drop solid a)) events2 in
          (
            fd2,
            write_blockwise-eq (at b a events) fd1 bsize alignment solid src
                (fd2, some (length src)) checks refl first
                (rw some_left (ap (λ x. and_then x (λ f _. (f, some (length src)))) e2)),
            append_assoc (b ++ take solid src) block (drop bsize (drop solid a))
                ∙ ap (λ x. (b ++ take solid src) ++ x)
                    (splice-take 0 bsize (drop solid src) (drop solid a) (omega arith)
                      (omega arith))
                ∙ pieces solid src b a (omega arith),
          )
    ]
