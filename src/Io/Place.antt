-- ===== src/Io/Place.antt =====
-- lib/utils_io.c: write_lseek_blockwise puts the bytes at the offset and changes no others.
use cryptsetup.Base.{
  ℕ, ◌+◌, ◌-◌, ◌*◌, ◌/◌, ◌%◌, ◌≤◌, ◌<◌, ◌≡◌, refl, sym, ap, ◌∙◌, arith, List, ◌++◌, append_assoc,
}
use cryptsetup.Base.{
  length, take, drop, take-append-drop, take_all, length-take, length-drop, true, false, ◌==◌, ◌||◌,
  Bool-cases, inl, inr,
}
use cryptsetup.Base.{Option, some, if◌then◌else◌}
use native.Mathlib.Nat.{mul-sub}
use cryptsetup.Luks2.Device.{splice}
use cryptsetup.Io.{
  Event, Fd, from_start, lseek, and_then, inner_count, write_at, write_blockwise, write_front,
  write_lseek_blockwise,
}
use cryptsetup.Io.Bytes.{splice-take, splice-append, splice-drop}
use cryptsetup.Io.Buffer.{IsFair, at}
use cryptsetup.Io.Write.{
  block_room, mod_parts, write_front-IsFair, write_blockwise-Wrote, splice_nothing,
}

multiple_rest : (k m bsize n : ℕ) → n ≡ m * bsize - k * bsize → n ≡ (m - k) * bsize
multiple_rest k m bsize n e = omega (arith, mul-sub bsize m k)

write_at-eq :
    (fd fd1 : Fd) (bsize alignment offset : ℕ) (src : List ℕ) (r : Fd × Option ℕ)
    → (if inner_count bsize (offset % bsize) (length src) == 0
        then (lseek (offset - offset % bsize) fd, some tt)
        else write_front
            (lseek (offset - offset % bsize) fd)
            bsize
            (offset % bsize)
            (take (inner_count bsize (offset % bsize) (length src)) src))
      ≡ (fd1, some tt)
    → (if length src - inner_count bsize (offset % bsize) (length src) == 0
        then (fd1, some (inner_count bsize (offset % bsize) (length src)))
        else and_then
            (write_blockwise fd1 bsize alignment
              (drop (inner_count bsize (offset % bsize) (length src)) src))
            (λ fd2 n. (fd2, some (n + inner_count bsize (offset % bsize) (length src)))))
      ≡ r
    → write_at fd bsize alignment src offset ≡ r
unfolding write_at and_then
write_at-eq fd fd1 bsize alignment offset src r first last =
    let inner : ℕ = inner_count bsize (offset % bsize) (length src) in
    ap
      (λ m. and_then m (λ f _.
        if length src - inner == 0
        then (f, some inner)
        else and_then (write_blockwise f bsize alignment (drop inner src))
            (λ g n. (g, some (n + inner)))))
      first
    ∙ last

module _ (bsize alignment m offset : ℕ) (src c : List ℕ) (events : List Event)
    (fair : IsFair events) (pos : 0 < bsize) (pos' : 0 < alignment) (size : length c ≡ m * bsize)
    (room : offset + length src ≤ length c) where
  abbrev front : ℕ
  front = offset % bsize

  abbrev p : ℕ
  p = offset - front

  abbrev start : Fd
  start = at (take p c) (drop p c) events

  abbrev inner : ℕ
  inner = inner_count bsize front (length src)

  start_size :
      (length (drop p c) ≡ (m - offset / bsize) * bsize)
      × (p + front ≡ offset)
      × (p ≤ length c)
      × (front < bsize)
  start_size =
      let (parts, small) = mod_parts offset bsize pos in
      let l = length-drop p c in
      (
        multiple_rest (offset / bsize) m bsize (length (drop p c)) (omega arith),
        omega arith,
        omega arith,
        small,
      )

  -- What the whole run leaves.
  abbrev Placed : Fd × Option ℕ → Type 0
  Placed run =
      (fd : Fd) × (run ≡ (fd, some (length src))) × (fd.before ++ fd.after ≡ splice offset src c)

  -- No part of a block stands in front.
  no_front :
      (fd0 : Fd)
      → lseek p fd0 ≡ start
      → (inner == 0) ≡ true
      → Placed (write_at fd0 bsize alignment src offset)
  unfolding and_then
  no_front fd0 e none_inner =
      let (a_size, sum, p_le, small) = start_size in
      let first : (if inner == 0
            then (lseek p fd0, some tt)
            else write_front (lseek p fd0) bsize front (take inner src))
          ≡ (start, some tt) =
        rw none_inner (ap (λ f. (f, some tt)) e) in
      elim (Bool-cases (length src - inner == 0)) [
        | inl nothing ↦
            let empty : length src ≡ 0 = ground arith in
            let zero_inner : inner ≡ length src = ground arith in
            (
              start,
              write_at-eq fd0 start bsize alignment offset src (start, some (length src)) first
                  (rw nothing (ap (λ n. (start, some n)) zero_inner)),
              take-append-drop p c ∙ sym (splice_nothing offset src c empty),
            )
        | inr something ↦
            let at_start : front ≡ 0 = ground arith in
            let zero_inner : inner ≡ 0 = ground arith in
            let sum_rest : length src + 0 ≡ length src = omega arith in
            let (fd2, run, left) =
              write_blockwise-Wrote bsize alignment (m - offset / bsize) src (take p c) (drop p c)
                events fair pos pos' a_size (omega (arith, length-drop p c)) in
            (
              fd2,
              write_at-eq fd0 start bsize alignment offset src (fd2, some (length src)) first
                  (rw something (
                    ap
                      (λ n.
                        and_then (write_blockwise start bsize alignment (drop n src))
                          (λ g k. (g, some (k + n))))
                      zero_inner
                    ∙ ap (λ x. and_then x (λ g k. (g, some (k + 0)))) run
                    ∙ ap (λ (n : ℕ). (fd2, some n)) (sum_rest))),
              left ∙ splice-drop p 0 offset src c (omega arith) p_le,
            )
      ]

  some_front :
      (fd0 : Fd)
      → lseek p fd0 ≡ start
      → (inner == 0) ≡ false
      → Placed (write_at fd0 bsize alignment src offset)
  unfolding and_then
  some_front fd0 e some_inner =
      let (a_size, sum, p_le, small) = start_size in
      let some_front_ : 0 < front = ground arith in
      let some_src : 0 < inner = ground arith in
      let inner_le : inner ≤ length src = ground arith in
      let inner_fits : front + inner ≤ bsize = ground arith in
      let (parts, _) = mod_parts offset bsize pos in
      let room' = block_room (offset / bsize) m bsize front (omega arith) some_front_ in
      let a_len : length (drop p c) ≡ length c - p = length-drop p c in
      let s1 : length (take inner src) ≡ inner = omega (arith, length-take inner src) in
      let (events1, fair1, e1) =
        write_front-IsFair bsize front (take inner src) (take p c) (drop p c) events fair
          (omega arith) pos (omega arith) in
      let block : List ℕ = splice front (take inner src) (take bsize (drop p c)) in
      let fd1 : Fd = at (take p c ++ block) (drop bsize (drop p c)) events1 in
      let first : (if inner == 0
            then (lseek p fd0, some tt)
            else write_front (lseek p fd0) bsize front (take inner src))
          ≡ (fd1, some tt) =
        rw some_inner (ap (λ f. write_front f bsize front (take inner src)) e ∙ e1) in
      elim (Bool-cases (length src - inner == 0)) [
        | inl nothing ↦
            let all : inner ≡ length src = ground arith in
            (
              fd1,
              write_at-eq fd0 fd1 bsize alignment offset src (fd1, some (length src)) first
                  (rw nothing (ap (λ n. (fd1, some n)) all)),
              append_assoc (take p c) block (drop bsize (drop p c))
                  ∙ ap (λ x. take p c ++ x)
                      (splice-take front bsize (take inner src) (drop p c) (omega arith)
                        (omega arith))
                  ∙ splice-drop p front offset (take inner src) c sum p_le
                  ∙ ap (λ x. splice offset x c) (take_all inner src (omega arith)),
            )
        | inr something ↦
            let sum_rest : length (drop inner src) + inner ≡ length src =
              omega (arith, length-drop inner src) in
            let filled : front + inner ≡ bsize = ground arith in
            let rest : length (drop inner src) ≡ length src - inner = length-drop inner src in
            let a2 : length (drop bsize (drop p c)) ≡ length c - p - bsize =
              omega (arith, length-drop bsize (drop p c)) in
            let a2_size : length (drop bsize (drop p c)) ≡ (m - (offset / bsize + 1)) * bsize =
              multiple_rest (offset / bsize + 1) m bsize (length (drop bsize (drop p c)))
                (omega arith) in
            let (fd2, run, left) =
              write_blockwise-Wrote bsize alignment (m - (offset / bsize + 1)) (drop inner src)
                (take p c ++ block) (drop bsize (drop p c)) events1 fair1 pos pos' a2_size
                (omega arith) in
            (
              fd2,
              write_at-eq fd0 fd1 bsize alignment offset src (fd2, some (length src)) first
                  (rw something (
                    ap (λ x. and_then x (λ g k. (g, some (k + inner)))) run
                    ∙ ap (λ (n : ℕ). (fd2, some n)) (sum_rest))),
              left
                  ∙ append_assoc (take p c) block
                      (splice 0 (drop inner src) (drop bsize (drop p c)))
                  ∙ ap (λ x. take p c ++ x)
                      (splice-append front bsize (take inner src) (drop inner src) (drop p c)
                          (omega arith) (omega arith)
                        ∙ ap (λ x. splice front x (drop p c)) (take-append-drop inner src))
                  ∙ splice-drop p front offset src c sum p_le,
            )
      ]

-- On an aligned device where no call fails for good, write_lseek_blockwise writes all bytes, and the
-- device then holds them at the offset and is unchanged elsewhere, for any block size and however
-- the kernel splits the transfers.
pub write_lseek_blockwise-splice :
    (fd : Fd) (bsize alignment m offset : ℕ) (src : List ℕ)
    → IsFair fd.events
    → 0 < bsize
    → 0 < alignment
    → length (fd.before ++ fd.after) ≡ m * bsize
    → offset + length src ≤ length (fd.before ++ fd.after)
    → (fd' : Fd) × (write_lseek_blockwise fd bsize alignment src (from_start offset)
        ≡ (fd', some (length src)))
      × (fd'.before ++ fd'.after ≡ splice offset src (fd.before ++ fd.after))
unfolding write_lseek_blockwise lseek
write_lseek_blockwise-splice fd bsize alignment m offset src fair pos pos' size room =
    let c : List ℕ = fd.before ++ fd.after in
    let checks : (bsize == 0 || alignment == 0) ≡ false = ground arith in
    let (fd', run, left) =
      elim (Bool-cases
          (inner bsize alignment m offset src c fd.events fair pos pos' size room == 0))
        as (λ _.
          Placed bsize alignment m offset src c fd.events fair pos pos' size room
            (write_at fd bsize alignment src offset)) [
              | inl h ↦
                  no_front bsize alignment m offset src c fd.events fair pos pos' size room fd refl
                    h
              | inr h ↦
                  some_front bsize alignment m offset src c fd.events fair pos pos' size room fd
                    refl h
            ] in
    (fd', rw checks run, left)
