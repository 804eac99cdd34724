-- ===== src/Io/Read.antt =====
-- lib/utils_io.c: read_lseek_blockwise returns the bytes at the offset.
use cryptsetup.Base.{
  ℕ, zero, suc, ◌+◌, ◌-◌, ◌%◌, ◌≤◌, ◌<◌, ◌≡◌, refl, sym, ap, ap₂, ◌∙◌, arith, List, [], ◌∷◌, ◌++◌,
  append-nil, append_assoc,
}
use cryptsetup.Base.{
  length, take, drop, take-append-drop, length-take, length-drop, true, false, ◌==◌, ◌||◌, not, ltb,
  Bool-cases, inl, inr,
}
use cryptsetup.Base.{Option, none, some, if◌then◌else◌}
use cryptsetup.Luks2.Device.{slice}
use cryptsetup.Io.{
  Event, Fd, from_start, lseek, and_then, inner_count, read_buffer, read_at, read_blockwise,
  read_front, read_lseek_blockwise,
}
use cryptsetup.Io.Bytes.{drop-drop, take-drop-append}
use cryptsetup.Io.Buffer.{IsFair, at, read_loop-IsFair}
use cryptsetup.Io.Write.{mod_parts}

take-take : (m n : ℕ) (xs : List ℕ) → m ≤ n → take m (take n xs) ≡ take m xs
take-take zero n xs h = refl
take-take (suc m) zero xs h = absurd (omega arith)
take-take (suc m) (suc n) [] h = refl
take-take (suc m) (suc n) (x ∷ xs) h = ap (λ t. x ∷ t) (take-take m n xs (omega arith))

slice-take :
    (offset len n : ℕ) (xs : List ℕ)
    → offset + len ≤ n
    → slice offset len (take n xs) ≡ take len (drop offset xs)
unfolding slice
slice-take zero len n xs h = take-take len n xs (omega arith)
slice-take (suc offset) len zero xs h = absurd (omega arith)
slice-take (suc offset) len (suc n) [] h = refl
slice-take (suc offset) len (suc n) (x ∷ xs) h = slice-take offset len n xs (omega arith)

-- What a read returns, and that it changes nothing.
abbrev ReadBytes : Fd × Option (List ℕ) → List ℕ → List ℕ → Type 0
ReadBytes run bytes c = (fd : Fd) × (run ≡ (fd, some bytes)) × (fd.before ++ fd.after ≡ c)

read_buffer-moves : (n : ℕ) (b a : List ℕ) → (b ++ take n a) ++ drop n a ≡ b ++ a
read_buffer-moves n b a =
    append_assoc b (take n a) (drop n a) ∙ ap (λ x. b ++ x) (take-append-drop n a)

read_blockwise-eq :
    (fd fd1 : Fd) (bsize alignment solid n : ℕ) (bytes : List ℕ) (r : Fd × Option (List ℕ))
    → (bsize == 0 || alignment == 0) ≡ false
    → n - n % bsize ≡ solid
    → length bytes ≡ solid
    → read_buffer fd solid ≡ (fd1, some bytes)
    → (if n % bsize == 0
        then (fd1, some bytes)
        else and_then (read_buffer fd1 bsize) (λ fd2 block. (
          fd2,
          if ltb (length block) (n % bsize) then none else some (bytes ++ take (n % bsize) block),
        )))
      ≡ r
    → read_blockwise fd bsize alignment n ≡ r
unfolding read_blockwise and_then
read_blockwise-eq fd fd1 bsize alignment solid n bytes r checks e len first last =
    let rest : ℕ → Fd → List ℕ → Fd × Option (List ℕ) = λ s f x.
      if not (length x == s)
      then (f, none)
      else if n % bsize == 0
      then (f, some x)
      else and_then (read_buffer f bsize) (λ g block.
        (g, if ltb (length block) (n % bsize) then none else some (x ++ take (n % bsize) block))) in
    let whole : (length bytes == solid) ≡ true = ground arith in
    ap
      (λ t.
        if t then (fd, none) else and_then (read_buffer fd (n - n % bsize)) (rest (n - n % bsize)))
      checks
    ∙ ap (λ s. and_then (read_buffer fd s) (rest s)) e
    ∙ ap (λ m. and_then m (rest solid)) first
    ∙ rw whole last

read_blockwise-ReadBytes :
    (bsize alignment n : ℕ) (b a : List ℕ) (events : List Event)
    → IsFair events
    → 0 < bsize
    → 0 < alignment
    → n ≤ length a
    → ReadBytes (read_blockwise (at b a events) bsize alignment n) (take n a) (b ++ a)
unfolding and_then
read_blockwise-ReadBytes bsize alignment n b a events fair pos pos' room =
    let h : ℕ = n % bsize in
    let solid : ℕ = n - h in
    let (parts, small) = mod_parts n bsize pos in
    let checks : (bsize == 0 || alignment == 0) ≡ false = ground arith in
    let (events1, fair1, e1) = read_loop-IsFair events solid b a fair in
    let len : length (take solid a) ≡ solid = omega (arith, length-take solid a) in
    let fd1 : Fd = at (b ++ take solid a) (drop solid a) events1 in
    elim (Bool-cases (h == 0)) [
      | inl none_left ↦
          let all : solid ≡ n = ground arith in
          (
            fd1,
            read_blockwise-eq (at b a events) fd1 bsize alignment solid n (take solid a)
                (fd1, some (take n a)) checks refl len e1
                (rw none_left (ap (λ k. (fd1, some (take k a))) all)),
            read_buffer-moves solid b a,
          )
      | inr some_left ↦
          let (events2, fair2, e2) =
            read_loop-IsFair events1 bsize (b ++ take solid a) (drop solid a) fair1 in
          let a1 : List ℕ = drop solid a in
          let fd2 : Fd = at ((b ++ take solid a) ++ take bsize a1) (drop bsize a1) events2 in
          let enough : ltb (length (take bsize a1)) h ≡ false =
            let l = length-take bsize a1 in let d = length-drop solid a in ground arith in
          let bytes : take solid a ++ take h (take bsize a1) ≡ take n a =
            ap (λ x. take solid a ++ x) (take-take h bsize a1 (omega arith))
            ∙ take-drop-append solid h n a (omega arith) in
          (
            fd2,
            read_blockwise-eq (at b a events) fd1 bsize alignment solid n (take solid a)
                (fd2, some (take n a)) checks refl len e1
                (rw some_left (
                  ap
                    (λ m. and_then m (λ g block. (
                      g,
                      if ltb (length block) h then none else some (take solid a ++ take h block),
                    )))
                    e2
                  ∙ rw enough (ap (λ x. (fd2, some x)) bytes))),
            read_buffer-moves bsize (b ++ take solid a) a1 ∙ read_buffer-moves solid b a,
          )
    ]

read_front-ReadBytes :
    (bsize front inner : ℕ) (b a : List ℕ) (events : List Event)
    → IsFair events
    → front + inner ≤ bsize
    → front + inner ≤ length a
    → (events' : List Event) × IsFair events'
      × (read_front (at b a events) bsize front inner
          ≡ (at (b ++ take bsize a) (drop bsize a) events', some (take inner (drop front a))))
unfolding read_front and_then
read_front-ReadBytes bsize front inner b a events fair fits room =
    let (events1, fair1, e1) = read_loop-IsFair events bsize b a fair in
    let enough : ltb (length (take bsize a)) (front + inner) ≡ false =
      let l = length-take bsize a in ground arith in
    (
      events1,
      fair1,
      ap
            (λ m. and_then m (λ f x.
              (f, if ltb (length x) (front + inner) then none else some (slice front inner x))))
            e1
          ∙ rw enough (
              ap (λ x. (at (b ++ take bsize a) (drop bsize a) events1, some x))
                (slice-take front inner bsize a fits)),
    )

read_lseek_blockwise-eq :
    (fd fd1 fd2 : Fd) (bsize alignment n offset : ℕ) (head tail : List ℕ)
    → 0 < bsize
    → (if inner_count bsize (offset % bsize) n == 0
        then (lseek (offset - offset % bsize) fd, some [])
        else read_front
            (lseek (offset - offset % bsize) fd)
            bsize
            (offset % bsize)
            (inner_count bsize (offset % bsize) n))
      ≡ (fd1, some head)
    → read_blockwise fd1 bsize alignment (n - inner_count bsize (offset % bsize) n)
      ≡ (fd2, some tail)
    → read_lseek_blockwise fd bsize alignment n (from_start offset) ≡ (fd2, some (head ++ tail))
unfolding read_lseek_blockwise read_at and_then
read_lseek_blockwise-eq fd fd1 fd2 bsize alignment n offset head tail pos first last =
    let inner : ℕ = inner_count bsize (offset % bsize) n in
    let test : (bsize == 0) ≡ false = ground arith in
    rw test (
      ap
        (λ m. and_then m (λ f x.
          and_then (read_blockwise f bsize alignment (n - inner)) (λ g y. (g, some (x ++ y)))))
        first
      ∙ ap (λ m. and_then m (λ g y. (g, some (head ++ y)))) last)

-- The bytes of the first block, and those of the others.
two_reads :
    (bsize front inner n p offset : ℕ) (c : List ℕ)
    → p + front ≡ offset
    → inner ≤ n
    → (0 < n - inner → front + inner ≡ bsize)
    → take inner (drop front (drop p c)) ++ take (n - inner) (drop bsize (drop p c))
      ≡ take n (drop offset c)
two_reads bsize front inner n p offset c sum le filled =
    let at_offset : drop front (drop p c) ≡ drop offset c = drop-drop front p offset c sum in
    elim (Bool-cases (n - inner == 0)) [
      | inl nothing ↦
          let none_left : n - inner ≡ 0 = ground arith in
          let all : inner ≡ n = omega arith in
          ap₂ (λ k x. take inner (drop front (drop p c)) ++ take k x) none_left refl
          ∙ append-nil (take inner (drop front (drop p c)))
          ∙ ap₂ (λ k x. take k x) all at_offset
      | inr something ↦
          let full : front + inner ≡ bsize = filled (ground arith) in
          let behind : drop bsize (drop p c) ≡ drop inner (drop front (drop p c)) =
            sym (drop-drop inner front bsize (drop p c) full) in
          ap (λ x. take inner (drop front (drop p c)) ++ take (n - inner) x) behind
          ∙ take-drop-append inner (n - inner) n (drop front (drop p c)) (omega arith)
          ∙ ap (λ x. take n x) at_offset
    ]

-- If no call fails for good and the bytes lie inside of the device, read_lseek_blockwise returns
-- them and leaves the device as it is, for any block size and however the kernel splits the
-- transfers.
pub read_lseek_blockwise-slice :
    (fd : Fd) (bsize alignment n offset : ℕ)
    → IsFair fd.events
    → 0 < bsize
    → 0 < alignment
    → offset + n ≤ length (fd.before ++ fd.after)
    → (fd' : Fd) × (read_lseek_blockwise fd bsize alignment n (from_start offset)
        ≡ (fd', some (slice offset n (fd.before ++ fd.after))))
      × (fd'.before ++ fd'.after ≡ fd.before ++ fd.after)
unfolding lseek slice
read_lseek_blockwise-slice fd bsize alignment n offset fair pos pos' room =
    let c : List ℕ = fd.before ++ fd.after in
    let front : ℕ = offset % bsize in
    let p : ℕ = offset - front in
    let inner : ℕ = inner_count bsize front n in
    let start : Fd = at (take p c) (drop p c) fd.events in
    let (parts, small) = mod_parts offset bsize pos in
    let a_len : length (drop p c) ≡ length c - p = length-drop p c in
    elim (Bool-cases (inner == 0)) [
      | inl none_inner ↦
          let (fd2, run, same) =
            read_blockwise-ReadBytes bsize alignment (n - inner) (take p c) (drop p c) fd.events
              fair pos pos' (ground arith) in
          let head : List ℕ = [] in
          (
            fd2,
            read_lseek_blockwise-eq fd start fd2 bsize alignment n offset head
                  (take (n - inner) (drop p c)) pos (rw none_inner refl) run
                ∙ ap (λ x. (fd2, some x)) (from_block none_inner),
            same ∙ take-append-drop p c,
          )
      | inr some_inner ↦
          let (events1, fair1, e1) =
            read_front-ReadBytes bsize front inner (take p c) (drop p c) fd.events fair
              (ground arith) (ground arith) in
          let (fd2, run, same) =
            read_blockwise-ReadBytes bsize alignment (n - inner) (take p c ++ take bsize (drop p c))
              (drop bsize (drop p c)) events1 fair1 pos pos'
              (ground (arith, length-drop bsize (drop p c))) in
          (
            fd2,
            read_lseek_blockwise-eq fd
                  (at (take p c ++ take bsize (drop p c)) (drop bsize (drop p c)) events1) fd2 bsize
                  alignment n offset (take inner (drop front (drop p c)))
                  (take (n - inner) (drop bsize (drop p c))) pos (rw some_inner e1) run
                ∙ ap (λ x. (fd2, some x))
                    (two_reads bsize front inner n p offset c (omega arith) (ground arith)
                      (λ more. ground arith)),
            same ∙ read_buffer-moves bsize (take p c) (drop p c) ∙ take-append-drop p c,
          )
    ]
  where
    zero_front : (offset % bsize == 0) ≡ true → offset % bsize ≡ 0
    zero_front h = ground arith

    no_bytes :
        (inner_count bsize (offset % bsize) n == 0) ≡ true → (offset % bsize == 0) ≡ false → n ≡ 0
    no_bytes h k = let (parts, small) = mod_parts offset bsize pos in ground arith

    from_block :
        (inner_count bsize (offset % bsize) n == 0) ≡ true
        → take
            (n - inner_count bsize (offset % bsize) n)
            (drop (offset - offset % bsize) (fd.before ++ fd.after))
          ≡ take n (drop offset (fd.before ++ fd.after))
    from_block none_inner = elim (Bool-cases (offset % bsize == 0)) [
      | inl aligned ↦
          let none_left : inner_count bsize (offset % bsize) n ≡ 0 = ground arith in
          let zero : offset % bsize ≡ 0 = zero_front aligned in
          let count : n - inner_count bsize (offset % bsize) n ≡ n = omega arith in
          let place : offset - offset % bsize ≡ offset = omega arith in
          ap₂ (λ i k. take i (drop k (fd.before ++ fd.after))) count place
      | inr not_aligned ↦
          let nothing : n ≡ 0 = no_bytes none_inner not_aligned in
          let nothing' : n - inner_count bsize (offset % bsize) n ≡ 0 = omega arith in
          ap (λ k. take k (drop (offset - offset % bsize) (fd.before ++ fd.after))) nothing'
          ∙ ap (λ k. take k (drop offset (fd.before ++ fd.after))) (sym nothing)
    ]
