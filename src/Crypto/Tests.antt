-- ===== src/Crypto/Tests.antt =====
-- The theorem on crypto.cc at a concrete input: a cipher that copies.
use cpu_check.Base.{ℕ, ◌≡◌, refl, true, none, List, [], replicate, arith}
use cpu_check.Base.Outcome.{done, ok}
use cpu_check.MalignBuffer.{MalignBuffer, IsValid, contents}
use cpu_check.Crypto.{Evp, CryptoPurse, encrypt, decrypt}
use cpu_check.Crypto.Laws.{IsFaultless, decrypt-encrypt}

abbrev copier : Evp
copier = record {
  Ctx = List ℕ;
  init = λ key i_vec encrypting. [];
  update = λ ctx xs. (true, xs, ctx);
  final = λ ctx. (true, [], ctx);
  get_tag = λ ctx. (true, replicate 16 0);
  set_tag = λ ctx tag. (true, ctx);
}

copier-IsFaultless : IsFaultless copier
copier-IsFaultless = record {
  seals = λ i_vec xs. refl;
  as_long = λ i_vec xs. refl;
  seal_ends = λ i_vec xs. refl;
  seal_adds = λ i_vec xs. refl;
  tags = λ i_vec xs. refl;
  sets = λ i_vec tag. refl;
  opens = λ i_vec xs. refl;
  restores = λ i_vec xs. refl;
  open_ends = λ i_vec xs. refl;
  open_adds = λ i_vec xs. refl;
}

abbrev buffer : ℕ → MalignBuffer
buffer byte = record {
  capacity = 24;
  base_address = 4096;
  alignment_offset = 3;
  buffer_length = 20;
  buffer_address = 4099;
  memory = replicate 32 byte;
}

buffer-IsValid : (byte : ℕ) → IsValid 8 (buffer byte)
buffer-IsValid byte = record {
  aligned = omega arith;
  fits = omega arith;
  placed = refl;
  room = omega arith;
}

decrypt-encrypt_example :
    (c : MalignBuffer) × (purse : CryptoPurse) × (t : MalignBuffer) × (encrypt copier
        (buffer 5)
        (buffer 6)
      ≡ done (c, ok purse))
    × (decrypt copier c purse (buffer 7) ≡ done (t, none))
    × IsValid 8 t
    × (contents t ≡ contents (buffer 5))
    × (t.buffer_length ≡ 20)
decrypt-encrypt_example =
    decrypt-encrypt copier 8 (buffer 5) (buffer 6) (buffer 7) copier-IsFaultless (buffer-IsValid 5)
      (buffer-IsValid 6) (buffer-IsValid 7) refl refl
