-- ===== src/Io/Tests.antt =====
-- lib/utils_io.c: runs on a device of three blocks.
use cryptsetup.Base.{◌≡◌, refl, arith, [], ◌∷◌, ◌++◌, some, none}
use cryptsetup.Luks2.Device.{splice, slice}
use cryptsetup.Io.{
  short, interrupted, failed, Fd, from_start, from_end, write_lseek_blockwise, read_lseek_blockwise,
}
use cryptsetup.Io.{
  and_then, lseek, write_at, read_at, write_front, read_front, write_blockwise, read_blockwise,
  write_hangover, read_loop, write_loop, after_read, after_write,
}
use cryptsetup.Io.Buffer.{IsFair}
use cryptsetup.Io.Place.{write_lseek_blockwise-splice}
use cryptsetup.Io.Read.{read_lseek_blockwise-slice}

abbrev sample : Fd
sample = record {
  before = 1 ∷ 2 ∷ [];
  after = 3 ∷ 4 ∷ 5 ∷ 6 ∷ 7 ∷ 8 ∷ 9 ∷ 10 ∷ 11 ∷ 12 ∷ [];
  events = short 3 ∷ interrupted ∷ short 1 ∷ [];
}

sample-IsFair : IsFair sample.events
sample-IsFair = (omega arith, (tt, (omega arith, tt)))

sample_written :
    (write_lseek_blockwise sample 4 1 (21 ∷ 22 ∷ 23 ∷ 24 ∷ 25 ∷ 26 ∷ 27 ∷ []) (from_start 3)).1
    ≡ some 7
unfolding write_lseek_blockwise and_then lseek write_at write_front write_blockwise write_hangover
    read_loop write_loop after_read after_write splice
sample_written = refl

sample_read : (read_lseek_blockwise sample 4 1 3 (from_end 5)).1 ≡ some (8 ∷ 9 ∷ 10 ∷ [])
unfolding read_lseek_blockwise and_then lseek read_at read_front read_blockwise read_loop after_read
    slice
sample_read = refl

-- A failed call is reported.
failed_read :
    (read_lseek_blockwise (record sample { events = failed ∷ [] }) 4 1 3 (from_start 1)).1 ≡ none
unfolding read_lseek_blockwise and_then lseek read_at read_front read_loop
failed_read = refl

write_lseek_blockwise-splice_example :
    (fd' : Fd) × (write_lseek_blockwise sample 4 1
        (21 ∷ 22 ∷ 23 ∷ 24 ∷ 25 ∷ 26 ∷ 27 ∷ [])
        (from_start 3)
      ≡ (fd', some 7))
    × (fd'.before ++ fd'.after
        ≡ splice 3 (21 ∷ 22 ∷ 23 ∷ 24 ∷ 25 ∷ 26 ∷ 27 ∷ []) (sample.before ++ sample.after))
write_lseek_blockwise-splice_example =
    write_lseek_blockwise-splice sample 4 1 3 3 (21 ∷ 22 ∷ 23 ∷ 24 ∷ 25 ∷ 26 ∷ 27 ∷ [])
      sample-IsFair (omega arith) (omega arith) refl (omega arith)

read_lseek_blockwise-slice_example :
    (fd' : Fd) × (read_lseek_blockwise sample 4 1 6 (from_start 3)
      ≡ (fd', some (slice 3 6 (sample.before ++ sample.after))))
    × (fd'.before ++ fd'.after ≡ sample.before ++ sample.after)
read_lseek_blockwise-slice_example =
    read_lseek_blockwise-slice sample 4 1 6 3 sample-IsFair (omega arith) (omega arith)
      (omega arith)
