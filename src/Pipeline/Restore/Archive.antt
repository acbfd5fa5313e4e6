-- ===== src/Pipeline/Restore/Archive.antt =====
-- internal/pipeline/restore.go: what the restore of an archive of large files has shown.
use gitdr.Common.{
  ◌≡◌, ◌⊎◌, refl, sym, ap, ◌∙◌, inl, inr, Bool, true, false, not, ◌||◌, Option, some, List, [], ◌∷◌,
  arith, Text, equal_fold, is_nil, if◌then◌else◌, Bool-cases,
}
use gitdr.Common.Results.{ok, ◌>>=◌, ◌>>◌, guard, or_fail, >>=-eq-ok, guard-eq-ok, or_fail-eq-ok}
use gitdr.Pipeline.Manifests.{Object}
use gitdr.Pipeline.Manifests.Read.{Store}
use gitdr.Pipeline.RestoreChecks.{
  RestoreChecks, lfs_undownloaded, lfs_unlike_manifest, lfs_undecrypted, lfs_unextracted,
  lfs_uninstalled, lfs_unhooked, lfs_unfilled, tree_unread, pointers_left,
}
use gitdr.Pipeline.Restore.{
  Machine, download, opened, agree_on_lfs, lfs_stored, lfs_agrees, no_pointers, put_back_lfs,
  restore_lfs,
}
use gitdr.Pipeline.Restore.Bundle.{same_ok}

pub nil_of : {A : Type 0} (xs : List A) → is_nil xs ≡ true → xs ≡ []
nil_of [] h = refl
nil_of (x ∷ xs) h = cc

module _ (decrypt : Option (Text → Option Text)) (hash : Text → Text) where
  no_pointers-ok :
      (m : Machine) {u : Unit {0}} → no_pointers decrypt hash m ≡ ok u → m.pointers ≡ some []
  unfolding no_pointers
  no_pointers-ok m {u} h =
      let (left, is_left, h1) =
        >>=-eq-ok (or_fail m.pointers tree_unread)
          (λ (left : List Text). guard (is_nil left) pointers_left) h in
      elim (Bool-cases (is_nil left)) [
        | inl on ↦ or_fail-eq-ok _ tree_unread is_left ∙ ap some (nil_of left on)
        | inr off ↦ absurd (ground (arith, h1, off))
      ]

  -- The archive that is stored has the checksum of the checks.
  abbrev pub Archived : Store → RestoreChecks → Text → Type 0
  Archived st c lfs_key =
      (stored : Text) × (download st lfs_key ≡ some stored)
      × (equal_fold c.lfs_sha (hash stored) ≡ true)

  put_back_lfs-ok :
      (st : Store) (m : Machine) (c : RestoreChecks) (lfs_key : Text) (checked_out : Bool)
      {u : Unit {0}}
      → put_back_lfs decrypt hash st m (some c) lfs_key checked_out ≡ ok u
      → Archived st c lfs_key × (m.pointers ≡ some [])
  unfolding put_back_lfs
  put_back_lfs-ok st m c lfs_key checked_out h =
      let rest_of = λ (tar : Text).
        guard (m.extracts tar) lfs_unextracted
        >> (guard m.lfs_available lfs_uninstalled
            >> (guard m.lfs_hooked lfs_unhooked
                >> (guard (not checked_out || m.lfs_filled) lfs_unfilled
                    >> no_pointers decrypt hash m))) in
      let (s, is_s, h1) =
        >>=-eq-ok (or_fail (download st lfs_key) lfs_undownloaded)
          (λ (s : Text).
            guard (lfs_agrees decrypt hash (some c) (hash s)) lfs_unlike_manifest
            >> (or_fail (opened decrypt hash s) lfs_undecrypted >>= rest_of))
          h in
      let (same, h2) =
        guard-eq-ok _ lfs_unlike_manifest
          (or_fail (opened decrypt hash s) lfs_undecrypted >>= rest_of) h1 in
      let (tar, _, h3) = >>=-eq-ok (or_fail (opened decrypt hash s) lfs_undecrypted) rest_of h2 in
      let (_, h4) =
        guard-eq-ok _ lfs_unextracted
          (guard m.lfs_available lfs_uninstalled
            >> (guard m.lfs_hooked lfs_unhooked
                >> (guard (not checked_out || m.lfs_filled) lfs_unfilled
                    >> no_pointers decrypt hash m)))
          h3 in
      let (_, h5) =
        guard-eq-ok _ lfs_uninstalled
          (guard m.lfs_hooked lfs_unhooked
            >> (guard (not checked_out || m.lfs_filled) lfs_unfilled >> no_pointers decrypt hash m))
          h4 in
      let (_, h6) =
        guard-eq-ok _ lfs_unhooked
          (guard (not checked_out || m.lfs_filled) lfs_unfilled >> no_pointers decrypt hash m) h5 in
      let (_, h7) = guard-eq-ok _ lfs_unfilled (no_pointers decrypt hash m) h6 in
      ((s, or_fail-eq-ok _ lfs_undownloaded is_s, same), no_pointers-ok m h7)

  -- The archive is recorded, stored and put back, or neither recorded nor stored.
  abbrev pub Agreed : Store → RestoreChecks → Text → Bool → Type 0
  Agreed st c lfs_key lfs =
      ((lfs ≡ true) × (is_nil c.lfs_sha ≡ false) × Archived st c lfs_key)
      ⊎ ((lfs ≡ false) × (c.lfs_sha ≡ []) × (lfs_stored decrypt hash (st.list lfs_key) ≡ false))

  agree_on_lfs-ok :
      (c : RestoreChecks) (listed : Option (List Object)) {u : Unit {0}}
      → agree_on_lfs decrypt hash (some c) listed ≡ ok u
      → not (is_nil c.lfs_sha) ≡ lfs_stored decrypt hash listed
  unfolding agree_on_lfs
  agree_on_lfs-ok c listed h = elim (Bool-cases (is_nil c.lfs_sha)) [
    | inl none_recorded ↦ elim (Bool-cases (lfs_stored decrypt hash listed)) [
      | inl on ↦ absurd (ground (arith, h, none_recorded, on))
      | inr off ↦ rw (none_recorded, off) refl
    ]
    | inr recorded ↦ elim (Bool-cases (lfs_stored decrypt hash listed)) [
      | inl on ↦ rw (recorded, on) refl
      | inr off ↦ absurd (ground (arith, h, recorded, off))
    ]
  ]

  pub restore_lfs-ok :
      (st : Store) (m : Machine) (c : RestoreChecks) (lfs_key : Text) (checked_out : Bool)
      {lfs : Bool}
      → restore_lfs decrypt hash st m (some c) lfs_key checked_out ≡ ok lfs
      → Agreed st c lfs_key lfs × (m.pointers ≡ some [])
  unfolding restore_lfs
  restore_lfs-ok st m c lfs_key checked_out {lfs} h =
      let listed = st.list lfs_key in
      let put = put_back_lfs decrypt hash st m (some c) lfs_key checked_out in
      let plain = no_pointers decrypt hash m in
      let work = if lfs_stored decrypt hash listed then put else plain in
      let (_, agree, h1) =
        >>=-eq-ok (agree_on_lfs decrypt hash (some c) listed)
          (λ (_ : Unit {0}). work >> ok (lfs_stored decrypt hash listed)) h in
      let (_, worked, h2) =
        >>=-eq-ok work (λ (_ : Unit {0}). ok (lfs_stored decrypt hash listed)) h1 in
      let is : lfs_stored decrypt hash listed ≡ lfs = same_ok h2 in
      let same = agree_on_lfs-ok c listed agree in
      elim (Bool-cases (lfs_stored decrypt hash listed)) [
        | inl on ↦
            let (archived, none_left) =
              put_back_lfs-ok st m c lfs_key checked_out
                (sym (ap (λ (b : Bool). if b then put else plain) on) ∙ worked) in
            (inl (sym is ∙ on, ground (arith, same, on), archived), none_left)
        | inr off ↦ (
          inr (sym is ∙ off, nil_of c.lfs_sha (ground (arith, same, off)), off),
          no_pointers-ok m (sym (ap (λ (b : Bool). if b then put else plain) off) ∙ worked),
        )
      ]
