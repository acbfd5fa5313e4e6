-- ===== src/Samples/Run.antt =====
-- A run of one repository to a destination that locks what it stores.
use gitdr.Common.{true, false, some, List, [], ◌∷◌, ◌++◌, codes, pos}
use gitdr.Pipeline.Manifest.{status_success}
use gitdr.Pipeline.Manifests.{Repo}
use gitdr.Pipeline.Retention.{WormStatus, immutable, present}
use gitdr.Pipeline.Run.{RunSetup, Ran}
use gitdr.Samples.Manifests.{key_bytes, finish, one_entry, manifest_key}

abbrev repos : List Repo
repos = record { host = codes "github.com"; owner = codes "group"; name = codes "one" } ∷ []

abbrev locked : WormStatus
locked = record { verdict = immutable; no_such_bucket = false; period = pos 0 }

abbrev setup : RunSetup
setup = record {
  require_worm = true;
  worm = some locked;
  listed = some repos;
  authed = true;
  days = 30;
  recopy = [];
  pub_key = key_bytes;
  clock = λ _ _. finish;
  fanned = λ _ _ _ _. one_entry ∷ [];
  observer = some (λ _. present);
  put = λ _. true;
}

abbrev ended : Ran
ended = record {
  manifest = record {
    finished_at = finish;
    status = status_success;
    verdict = immutable;
    observed = present;
    repos = one_entry ∷ [];
  };
  key = manifest_key;
  stored = manifest_key ∷ (manifest_key ++ codes ".sig") ∷ [];
  fails = false;
}
