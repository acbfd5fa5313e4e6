-- ===== src/Config/Accepts.antt =====
-- What an accepted configuration is.
use gitdr.Common.{
  ℕ, zero, suc, ap, ◌+◌, ◌≡◌, refl, ◌≢◌, ◌⊎◌, inl, inr, true, false, ◌||◌, none, [], ◌∷◌, arith,
  Text, codes, text_eq, text_eq_iff, is_nil, trim_space, Bool-cases, ℤ, pos, negsuc, le_zero,
  is_neg,
}
use gitdr.Config.{
  DestinationConfig, Config, part_fits, azure_account, mode_known, validate_s3, validate_gcs,
  validate_azure, validate_kind, validate_retention, validate_destination, validate,
}

-- The backend's own settings.
abbrev pub BackendOk : DestinationConfig → Type 0
BackendOk d =
    ((d.kind ≡ codes "s3")
      × (trim_space d.s3_bucket ≢ [])
      × (part_fits d.multipart_threshold ≡ true)
      × (part_fits d.part_size ≡ true))
    ⊎ ((d.kind ≡ codes "gcs") × (trim_space d.gcs_bucket ≢ []))
    ⊎ ((d.kind ≡ codes "azure")
        × (trim_space d.azure_container ≢ [])
        × ((d.azure_account ≡ []) ⊎ (azure_account d.azure_account ≡ true)))

is_nil-eq : (xs : Text) → is_nil xs ≡ true → xs ≡ []
is_nil-eq [] h = refl
is_nil-eq (_ ∷ xs) h = cc

filled : (xs : Text) → is_nil xs ≡ false → xs ≢ []
filled xs h e = ground (arith, e, h)

backend : (d : DestinationConfig) → validate_kind d ≡ none → BackendOk d
unfolding validate_kind validate_s3 validate_gcs validate_azure
backend d h = elim (Bool-cases (text_eq d.kind (codes "s3"))) [
  | inl e ↦ inl (
    (text_eq_iff _ _).0 e,
    filled (trim_space d.s3_bucket) (ground (arith, e, h)),
    ground (arith, e, h),
    ground (arith, e, h),
  )
  | inr e ↦ elim (Bool-cases (text_eq d.kind (codes "gcs"))) [
    | inl f ↦
        inr
          (inl ((text_eq_iff _ _).0 f, filled (trim_space d.gcs_bucket) (ground (arith, e, f, h))))
    | inr f ↦ elim (Bool-cases (text_eq d.kind (codes "azure"))) [
      | inr g ↦ absurd (ground (arith, e, f, g, h))
      | inl g ↦ inr (
          inr (
            (text_eq_iff _ _).0 g,
            filled (trim_space d.azure_container) (ground (arith, e, f, g, h)),
            elim (Bool-cases (is_nil d.azure_account)) [
              | inl z ↦ inl (is_nil-eq d.azure_account z)
              | inr z ↦ inr (ground (arith, e, f, g, h, z))
            ],
          ))
    ]
  ]
]

above_zero : (d : ℤ) → le_zero d ≡ false → (n : ℕ) × (d ≡ pos (n + 1))
above_zero (pos zero) h = absurd (ground (arith, h))
above_zero (pos (suc n)) h = (n, ap pos (omega arith))
above_zero (negsuc n) h = cc

from_zero : (d : ℤ) → is_neg d ≡ false → (n : ℕ) × (d ≡ pos n)
from_zero (pos n) h = (n, refl)
from_zero (negsuc n) h = cc

retained :
    (c : Config)
    → validate_retention c ≡ none
    → (mode_known c.destination.retention_mode ≡ true)
      × ((n : ℕ) × (c.destination.retention_days ≡ pos (n + 1)))
      × ((w : ℕ) × (c.github.max_rate_limit_wait ≡ pos w))
unfolding validate_retention
retained c h = (
  ground (arith, h),
  above_zero c.destination.retention_days (ground (arith, h)),
  from_zero c.github.max_rate_limit_wait (ground (arith, h)),
)

-- What a configuration that `Validate` accepts states. It names a known source; its
-- destination is an S3 bucket, with both multipart settings zero or a part's size, a GCS bucket, or an
-- Azure container, with no account or one that is a storage account's name; the retention's mode is a
-- known one, for at least one day; and the wait for rate limits is not negative.
pub validate-none :
    (c : Config)
    → validate c ≡ none
    → ((c.source_kind ≡ codes "github") ⊎ (c.source_kind ≡ codes "gitlab"))
      × BackendOk c.destination
      × (mode_known c.destination.retention_mode ≡ true)
      × ((n : ℕ) × (c.destination.retention_days ≡ pos (n + 1)))
      × ((w : ℕ) × (c.github.max_rate_limit_wait ≡ pos w))
unfolding validate validate_destination
validate-none c h =
    let known : (text_eq c.source_kind (codes "github") || text_eq c.source_kind (codes "gitlab"))
        ≡ true =
      ground (arith, h) in
    let kind : validate_kind c.destination ≡ none = ground (arith, h) in
    let (mode, days, wait) = retained c (ground (arith, h)) in
    (
      elim (Bool-cases (text_eq c.source_kind (codes "github"))) [
        | inl e ↦ inl ((text_eq_iff _ _).0 e)
        | inr e ↦ inr ((text_eq_iff _ _).0 (ground (arith, e, known)))
      ],
      backend c.destination kind,
      mode,
      days,
      wait,
    )
