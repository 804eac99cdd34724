-- ===== src/Verity/File.antt =====
-- lib/verity/verity_hash.c: the files that are hashed and written, as the bytes before and after
-- their positions. Their size is fixed, as that of a device is. A call that is asked for no bytes
-- returns 0, which the callers take for an error.
use cryptsetup.Base.{
  ℕ, List, ◌++◌, length, take, drop, ◌||◌, ◌==◌, ltb, leb, ◌^◌, if◌then◌else◌, Result, ok, err, eio,
}

pub record File : Type 0 where
  pub before : List ℕ
  pub after : List ℕ

unfoldable pub fread : ℕ → File → Result (List ℕ × File)
fread n f =
    if n == 0 || ltb (length f.after) n
    then err eio
    else ok (take n f.after, record { before = f.before ++ take n f.after; after = drop n f.after })

unfoldable pub fwrite : List ℕ → File → Result File
fwrite bytes f =
    if length bytes == 0 || ltb (length f.after) (length bytes)
    then err eio
    else ok (record { before = f.before ++ bytes; after = drop (length bytes) f.after })

-- `fseeko` with SEEK_SET; an offset is a signed number.
unfoldable pub fseek : ℕ → File → Result File
fseek offset f =
    if leb (2 ^ 63) offset
    then err eio
    else ok (record {
      before = take offset (f.before ++ f.after);
      after = drop offset (f.before ++ f.after);
    })
