-- ===== src/Worker/Sound/Laws.antt =====
-- What the checker as a whole has verified when it accepts.
use mathlib.Core.Path.{subst}
use cpu_check.Base.{◌≡◌, none}
use cpu_check.Base.Outcome.{done, ok}
use cpu_check.MalignBuffer.Syndrome.{syndrome}
use cpu_check.Worker.{Context, Choices, World, WorkerError, check, maybe_flush, copy}
use cpu_check.Worker.Compute.{Computed}
use cpu_check.Worker.Check.{
  decrypt_head, decompress_head, remake, check_hash, check_silkscreen, check_computations,
}
use cpu_check.Worker.Post.{Post, After, map_Post, any_Post, check-Post}
use cpu_check.Worker.Sound.{IsVerified, failing, then_Sound, syndrome-none}
use cpu_check.Worker.Sound.Stages.{
  decrypt_head-Sound, decompress_head-Sound, remake-Sound, check_hash-Sound, check_silkscreen-Sound,
}

check_computations_Sound :
    (ctx : Context) (choices : Choices) (c : Computed ctx) (w : World ctx)
    → Post
        (λ _ w'. IsVerified ctx choices c w')
        (λ _ _. Unit {0})
        (check_computations ctx choices c w)
unfolding check_computations
check_computations_Sound ctx choices c w =
    let s = syndrome c.copied c.pre_copied in
    then_Sound ctx {P = λ _ _. s ≡ none} (check s copy) _ w
      (check-Post s copy w (λ e. e) (λ e. failing ctx e w))
      (λ _ w1 same.
        then_Sound ctx (maybe_flush ctx c.copied) _ w1 (any_Post (maybe_flush ctx c.copied w1))
          (λ _ w2 _.
            then_Sound ctx (decrypt_head ctx choices c c.copied) _ w2
              (decrypt_head-Sound ctx choices c c.copied w2)
              (λ plain w3 decrypted.
                then_Sound ctx (decompress_head ctx choices plain) _ w3
                  (decompress_head-Sound ctx choices plain w3)
                  (λ head w4 decompressed.
                    then_Sound ctx (remake ctx choices c) _ w4 (remake-Sound ctx choices c w4)
                      (λ _ w5 remade.
                        then_Sound ctx (check_hash ctx choices c head) _ w5
                          (check_hash-Sound ctx choices c head w5)
                          (λ _ w6 hashed.
                            map_Post (check_silkscreen ctx w6)
                              (λ _ w7 slots. record {
                                copied = syndrome-none c.copied c.pre_copied same;
                                plain = plain;
                                decrypted = decrypted;
                                head = head;
                                decompressed = decompressed;
                                remade = remade;
                                hashed = hashed;
                                slots = slots;
                              })
                              (check_silkscreen-Sound ctx w6)))))))

-- On any machine, faulty or not: if `CheckComputations` accepts, then the copy has the contents of what
-- was copied; with encryption, what the copy was decrypted to has the contents of what was
-- encrypted, and without, the next stage works on the copy itself; with compression, what that
-- was decompressed to has the size of the original, and without, it is hashed itself; the
-- pattern made again has the contents of the original and floating point results that agree; with
-- hashing, the hash of the last buffer is the one of the writer; and the slots of the thread pass.
pub check_computations-IsVerified :
    (ctx : Context) (choices : Choices) (c : Computed ctx) (w w' : World ctx)
    → check_computations ctx choices c w ≡ done (ok tt, w')
    → IsVerified ctx choices c w'
check_computations-IsVerified ctx choices c w w' accepts =
    subst
      (After (λ (_ : Unit {0}) (w'' : World ctx). IsVerified ctx choices c w'')
        (λ (_ : WorkerError) (_ : World ctx). Unit {0}))
      accepts (check_computations_Sound ctx choices c w).after
