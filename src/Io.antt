-- ===== src/Io.antt =====
-- lib/utils_io.c: reading and writing at any offset of a device that is read and written in blocks.
pub mod Bytes
pub mod Buffer
pub mod Write
pub mod Place
pub mod Read
mod Tests
use cryptsetup.Base.{
  ℕ, zero, suc, ◌+◌, ◌-◌, ◌%◌, List, [], ◌∷◌, ◌++◌, length, take, drop, replicate, min,
}
use cryptsetup.Base.{Bool, not, ◌||◌, ◌==◌, ltb, if◌then◌else◌, Option, none, some}
use cryptsetup.Luks2.Device.{slice, splice}

-- What a call of read or write meets: at most `n` bytes are transferred, a signal interrupts it
-- (EINTR), or it fails. A call after the last event transfers all that it can.
pub data Event : Type 0 where
  short : ℕ → Event
  interrupted : Event
  failed : Event

-- An open device of fixed size: the bytes before and after its position, and the events to come.
pub record Fd : Type 0 where
  pub before : List ℕ
  pub after : List ℕ
  pub events : List Event

-- `lseek` from the start.
unfoldable pub lseek : ℕ → Fd → Fd
lseek offset fd = record {
  before = take offset (fd.before ++ fd.after);
  after = drop offset (fd.before ++ fd.after);
  events = fd.events;
}

-- What `_read_buffer` does after a call that has read `r` of `n` bytes; `next` is the rest of its
-- loop.
unfoldable pub after_read :
    ℕ → ℕ → List ℕ → List ℕ → List Event → Fd × Option (List ℕ) → Fd × Option (List ℕ)
after_read n r before after events next =
    if r == 0
    then (record { before = before; after = after; events = events }, some [])
    else if r == n
    then (
      record { before = before ++ take r after; after = drop r after; events = events },
      some (take r after),
    )
    else (next.0, elim (next.1) [ none ↦ none | some bytes ↦ some (take r after ++ bytes) ])

-- The loop of `_read_buffer`, with `n` bytes still wanted: the bytes read, `none` for a negative
-- value. After the last event the first call takes all there is, and the next one finds the end.
unfoldable pub read_loop : List Event → ℕ → List ℕ → List ℕ → Fd × Option (List ℕ)
unfolding after_read
read_loop [] n before after = (
  record { before = before ++ take n after; after = drop n after; events = [] },
  some (take n after),
)
read_loop (failed ∷ events) n before after =
    (record { before = before; after = after; events = events }, none)
read_loop (interrupted ∷ events) n before after = read_loop events n before after
read_loop (short k ∷ events) n before after =
    let r : ℕ = min (min k n) (length after) in
    after_read n r before after events
      (read_loop events (n - r) (before ++ take r after) (drop r after))

-- `read_buffer`
abbrev pub read_buffer : Fd → ℕ → Fd × Option (List ℕ)
read_buffer fd n = read_loop fd.events n fd.before fd.after

-- What `_write_buffer` does after a call that has written `w` bytes of `src`; at the end of the
-- device the call fails.
unfoldable pub after_write :
    List ℕ → ℕ → List ℕ → List ℕ → List Event → Fd × Option ℕ → Fd × Option ℕ
after_write src w before after events next =
    let stop : Fd = record { before = before; after = after; events = events } in
    if length after == 0
    then (stop, none)
    else if w == 0
    then (stop, some 0)
    else if w == length src
    then (record { before = before ++ src; after = drop w after; events = events }, some w)
    else (next.0, elim (next.1) [ none ↦ none | some n ↦ some (w + n) ])

-- The loop of `_write_buffer`: the number of bytes written, `none` for a negative value.
unfoldable pub write_loop : List Event → List ℕ → List ℕ → List ℕ → Fd × Option ℕ
unfolding after_write
write_loop [] src before after =
    let w : ℕ = min (length src) (length after) in
    (
      record { before = before ++ take w src; after = drop w after; events = [] },
      if w == length src then some w else none,
    )
write_loop (failed ∷ events) src before after =
    (record { before = before; after = after; events = events }, none)
write_loop (interrupted ∷ events) src before after = write_loop events src before after
write_loop (short k ∷ events) src before after =
    let w : ℕ = min (min k (length src)) (length after) in
    after_write src w before after events
      (write_loop events (drop w src) (before ++ take w src) (drop w after))

-- `write_buffer`
abbrev pub write_buffer : Fd → List ℕ → Fd × Option ℕ
write_buffer fd src =
    if length src == 0 then (fd, none) else write_loop fd.events src fd.before fd.after

-- A block of which only the first bytes were read.
abbrev pub fill_block : ℕ → List ℕ → List ℕ
fill_block bsize bytes = bytes ++ replicate (bsize - length bytes) 0

-- The next step after a call, with the value that it returned; a negative one ends the function.
unfoldable pub and_then : {A B : Type 0} → Fd × Option A → (Fd → A → Fd × Option B) → Fd × Option B
and_then (fd, none) next = (fd, none)
and_then (fd, some a) next = next fd a

-- The last block of `write_blockwise`: it is read, changed at its start, and written again.
unfoldable pub write_hangover : Fd → ℕ → List ℕ → Fd × Option (Unit {0})
unfolding and_then
write_hangover fd bsize hangover = and_then (read_buffer fd bsize) (λ fd1 bytes.
    and_then
      (write_buffer (lseek (length fd1.before - length bytes) fd1)
        (splice 0 hangover (fill_block bsize bytes)))
      (λ fd2 w. (fd2, if ltb w (length hangover) then none else some tt)))

-- The whole blocks of `write_blockwise`.
abbrev pub write_solid : Fd → List ℕ → Fd × Option ℕ
write_solid fd src = if length src == 0 then (fd, some 0) else write_buffer fd src

-- `write_blockwise`: the number of bytes written, `none` for -1. Where the buffer lies in memory
-- makes no difference to the bytes written.
unfoldable pub write_blockwise : Fd → ℕ → ℕ → List ℕ → Fd × Option ℕ
unfolding and_then
write_blockwise fd bsize alignment src =
    if bsize == 0 || alignment == 0
    then (fd, none)
    else let hangover : ℕ = length src % bsize in
      let solid : ℕ = length src - hangover in
      and_then (write_solid fd (take solid src)) (λ fd1 n.
        if not (n == solid)
        then (fd1, none)
        else if hangover == 0
        then (fd1, some (length src))
        else and_then (write_hangover fd1 bsize (drop solid src))
            (λ fd2 _. (fd2, some (length src))))

-- `read_blockwise`: the bytes read, `none` for -1.
unfoldable pub read_blockwise : Fd → ℕ → ℕ → ℕ → Fd × Option (List ℕ)
unfolding and_then
read_blockwise fd bsize alignment n =
    if bsize == 0 || alignment == 0
    then (fd, none)
    else let hangover : ℕ = n % bsize in
      let solid : ℕ = n - hangover in
      and_then (read_buffer fd solid) (λ fd1 bytes.
        if not (length bytes == solid)
        then (fd1, none)
        else if hangover == 0
        then (fd1, some bytes)
        else and_then (read_buffer fd1 bsize) (λ fd2 block.
          (fd2, if ltb (length block) hangover then none else some (bytes ++ take hangover block))))

-- The first block of `write_lseek_blockwise`: `inner` bytes are put behind the first `front` ones.
-- What was not read of the block is zero here, and uninitialised in C.
unfoldable pub write_front : Fd → ℕ → ℕ → List ℕ → Fd × Option (Unit {0})
unfolding and_then
write_front fd bsize front inner = and_then (read_buffer fd bsize) (λ fd1 bytes.
    if ltb (length bytes) (front + length inner)
    then (fd1, none)
    else and_then
        (write_buffer (lseek (length fd.before) fd1) (splice front inner (fill_block bsize bytes)))
        (λ fd2 w. (fd2, if w == bsize then some tt else none)))

-- The first block of `read_lseek_blockwise`.
unfoldable pub read_front : Fd → ℕ → ℕ → ℕ → Fd × Option (List ℕ)
unfolding and_then
read_front fd bsize front inner = and_then (read_buffer fd bsize) (λ fd1 bytes.
    (fd1, if ltb (length bytes) (front + inner) then none else some (slice front inner bytes)))

-- The argument `offset` of the next two functions: a negative one counts from the end.
pub data Offset : Type 0 where
  from_start from_end : ℕ → Offset

-- `lseek` to the end with a negative offset; `none` if it is before the start.
abbrev pub resolve : Fd → Offset → Option ℕ
resolve fd (from_start n) = some n
resolve fd (from_end n) =
    let size : ℕ = length (fd.before ++ fd.after) in if ltb size n then none else some (size - n)

-- `innerCount`: how many of `n` bytes stand in the first block, if they do not start it.
abbrev pub inner_count : ℕ → ℕ → ℕ → ℕ
inner_count bsize front n = if front == 0 then 0 else min (bsize - front) n

-- `write_lseek_blockwise` from an offset that is not negative.
unfoldable pub write_at : Fd → ℕ → ℕ → List ℕ → ℕ → Fd × Option ℕ
unfolding and_then
write_at fd bsize alignment src offset =
    let front : ℕ = offset % bsize in
    let inner : ℕ = inner_count bsize front (length src) in
    let start = lseek (offset - front) fd in
    and_then
      (if inner == 0 then (start, some tt) else write_front start bsize front (take inner src))
      (λ fd1 _.
        if length src - inner == 0
        then (fd1, some inner)
        else and_then (write_blockwise fd1 bsize alignment (drop inner src))
            (λ fd2 n. (fd2, some (n + inner))))

-- `write_lseek_blockwise`
unfoldable pub write_lseek_blockwise : Fd → ℕ → ℕ → List ℕ → Offset → Fd × Option ℕ
write_lseek_blockwise fd bsize alignment src offset =
    if bsize == 0 || alignment == 0
    then (fd, none)
    else elim (resolve fd offset) [ none ↦ (fd, none) | some n ↦ write_at fd bsize alignment src n ]

-- `read_lseek_blockwise` from an offset that is not negative.
unfoldable pub read_at : Fd → ℕ → ℕ → ℕ → ℕ → Fd × Option (List ℕ)
unfolding and_then
read_at fd bsize alignment n offset =
    let front : ℕ = offset % bsize in
    let inner : ℕ = inner_count bsize front n in
    let start = lseek (offset - front) fd in
    and_then (if inner == 0 then (start, some []) else read_front start bsize front inner)
      (λ fd1 head.
        and_then (read_blockwise fd1 bsize alignment (n - inner))
          (λ fd2 tail. (fd2, some (head ++ tail))))

-- `read_lseek_blockwise`, which does not look at the alignment before it is used.
unfoldable pub read_lseek_blockwise : Fd → ℕ → ℕ → ℕ → Offset → Fd × Option (List ℕ)
read_lseek_blockwise fd bsize alignment n offset =
    if bsize == 0
    then (fd, none)
    else elim (resolve fd offset) [ none ↦ (fd, none) | some at ↦ read_at fd bsize alignment n at ]
