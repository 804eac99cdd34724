-- ===== src/Wrapper/Tests.antt =====
-- Runs of lib/utils_storage_wrappers.c, and the theorem at a concrete input.
use cryptsetup.Base.{
  ℕ, ◌≡◌, refl, arith, List, length, replicate, length-replicate, false, ok, err, einval, enotsup,
  some, none, Option,
}
use cryptsetup.Luks2.Device.{Device, write_lseek}
use cryptsetup.Storage.Toy.{toy, toy_storage, toy-IsCipher, mask}
use cryptsetup.Storage.{storage_encrypt, sector_iv_generate}
use cryptsetup.Wrapper.{
  Wrapper, Dm, uspace, dmcrypt, wrapper_encrypt_write, wrapper_read_decrypt, wrapper_init,
}
use cryptsetup.Wrapper.RoundTrip.{wrapper_read_decrypt-wrapper_encrypt_write}

abbrev disk : Device
disk = record { bytes = replicate 2048 0; quota = 4096; bad = λ offset len. false }

abbrev masked : Wrapper toy
masked = record { kind = uspace toy_storage 3; data_offset = 512 }

abbrev plain : List ℕ
plain = replicate 512 9

abbrev disk_after : Device
disk_after = (wrapper_encrypt_write toy disk masked 512 plain).0

disk_after-whole :
    ◌≡◌ {A = Device × Option ℕ}
      (wrapper_encrypt_write toy disk masked 512 plain)
      (disk_after, some (length plain))
unfolding wrapper_encrypt_write storage_encrypt sector_iv_generate write_lseek mask
disk_after-whole = refl

wrapper_read_decrypt-wrapper_encrypt_write_example :
    wrapper_read_decrypt toy disk_after masked 512 (length plain) ≡ some plain
wrapper_read_decrypt-wrapper_encrypt_write_example =
    wrapper_read_decrypt-wrapper_encrypt_write toy disk disk_after masked 512 plain (toy-IsCipher 5)
      (omega (arith, length-replicate {A = ℕ} 512 9, length-replicate {A = ℕ} 2048 0)) refl
      disk_after-whole

abbrev kernel : Dm
kernel = record { read = λ dev len offset. none; write = λ dev src offset. (dev, none) }

-- A cipher that this process does not have is left to the kernel.
kernel_falls_back :
    wrapper_init toy 4096 0 false (some (err enotsup)) false false (ok kernel)
    ≡ ok (record { kind = dmcrypt kernel; data_offset = 4096 })
unfolding wrapper_init
kernel_falls_back = refl

misaligned_refused : wrapper_init toy 100 0 false none false false (ok kernel) ≡ err einval
unfolding wrapper_init
misaligned_refused = refl
