-- ===== src/Fleetsec/Recovery/Hook/Race.antt =====
-- What overlapping calls of `ForceRecoverStranded` (internal/fleetsec/recovery_hook.go) do: none of
-- them sees the job of another.
use diginode_cc.Prelude.{ℕ, zero, suc, ◌≡◌, false, some, List, [], ◌∷◌, is_empty}
use diginode_cc.Jobs.{Job}
use diginode_cc.Fleetsec.Recovery.Hook.{
  new_recovery_hook, Marks, RecoverPayload, enqueue_recovery, System,
}

module _ (encode : RecoverPayload → List ℕ) (node since : ℕ) (prev : List ℕ)
    (key : is_empty prev ≡ false) where
  abbrev marks : Marks
  marks = record { stranded_since = some since; previous_psk_fp = prev }

  abbrev call : RecoverPayload
  call = record { node_num = node; prev_psk_fp = prev; source = "manual" }

  abbrev calls : ℕ → List RecoverPayload
  calls zero = []
  calls (suc n) = call ∷ calls n

  -- The queue after so many of the calls.
  crowd : ℕ → List Job
  crowd zero = []
  crowd (suc n) = enqueue_recovery encode n 0 call (crowd n)

  abbrev state : List Job → List RecoverPayload → System
  state jobs cleared = record {
    hook = new_recovery_hook;
    jobs = jobs;
    asked = [];
    cleared = cleared;
  }
