-- ===== src/Bucket/Renames.antt =====
-- The paths of a bucket that is renamed.
use reduct_cpp.Common.{
  ◌≡◌, refl, ◌++◌, Bytes, codes, Except, ok, Error, no_error, inl, inr, ◌⊎◌, Bool-cases, ==ℤ_iff,
  ◌==ℤ◌, pos, ◌≢◌,
}
use reduct_cpp.Json.{Json}
use reduct_cpp.Bucket.{Client, Bucket, new_bucket}
use reduct_cpp.Bucket.Manage.{naming, rename, after_rename}

-- The bucket's paths are those of a bucket that is built under a name.
abbrev pub AtName : Bytes → Bucket → Type 0
AtName name bucket =
    (bucket.path ≡ (new_bucket name).path) × (bucket.io_path ≡ (new_bucket name).io_path)

-- What a bucket has become of, by the answer of the server.
abbrev pub Renamed : {W : Type 0} → Bytes → Bucket → Error × W → Except Error × Bucket × W → Type 0
Renamed new_name bucket answered result =
    ((answered.0.code ≡ pos 0)
      × (result.0 ≡ ok no_error)
      × AtName new_name result.1
      × (result.1.name ≡ bucket.name)
      × (result.2 ≡ answered.1))
    ⊎ ((answered.0.code ≢ pos 0) × (result ≡ (ok answered.0, bucket, answered.1)))

module _ {W : Type 0} (json : Json) (client : Client W) where
  after_rename-Renamed :
      (bucket : Bucket) (new_name : Bytes) (answered : Error × W)
      → Renamed new_name bucket answered (after_rename json client bucket new_name answered)
  unfolding after_rename new_bucket
  after_rename-Renamed bucket new_name (err, w) = elim (Bool-cases (err.code ==ℤ pos 0)) [
    | inl taken ↦ inl (
      (==ℤ_iff err.code (pos 0)).0 taken,
      rw taken refl,
      rw taken (refl, refl),
      rw taken refl,
      rw taken refl,
    )
    | inr refused ↦ inr ((λ e. let t = (==ℤ_iff err.code (pos 0)).1 e in cc), rw refused refl)
  ]

  -- Where the document of the new name is written: if the server answers without an error, both
  -- paths are those of a bucket that is built under the new name, and the member `name_` stays as
  -- it was; if it answers with an error, that is returned, and the bucket stays as it was.
  pub rename-Renamed :
      (bucket : Bucket) (new_name body : Bytes) (w : W)
      → naming json client bucket new_name ≡ ok body
      → Renamed new_name bucket
          (client.put (bucket.path ++ codes "/rename") body w)
          (rename json client bucket new_name w)
  unfolding rename
  rename-Renamed bucket new_name body w written =
      rw (written, rename)
        (after_rename-Renamed bucket new_name (client.put (bucket.path ++ codes "/rename") body w))
