-- ===== src/Ctl/Command/Kinds.antt =====
-- Which skeleton belongs to which kind.
use daemonjob.Prelude.{String, ◌≡◌, refl, ◌⊎◌, inl, inr, some, arith, eq_iff}
use daemonjob.Ctl.Resource
use daemonjob.Ctl.Resource.{ApiObject}
use daemonjob.Ctl.Skeleton.{
  daemon_job_skeleton, daemon_cron_job_skeleton, daemon_cron_job_set_skeleton,
}
use daemonjob.Ctl.Command.{skeleton_of}

module _ {X U : Type 0} (kind : String) (o : ApiObject X U) where
  abbrev pub IsSkeleton : Type 0
  IsSkeleton =
      ((kind ≡ "daemonjob") × (o ≡ Resource.daemon_job daemon_job_skeleton))
      ⊎ (((kind ≡ "daemoncronjob") × (o ≡ Resource.daemon_cron_job daemon_cron_job_skeleton))
          ⊎ ((kind ≡ "daemoncronjobset")
              × (o ≡ Resource.daemon_cron_job_set daemon_cron_job_set_skeleton)))

  pub skeleton_of-IsSkeleton : skeleton_of kind ≡ some o → IsSkeleton
  unfolding skeleton_of
  skeleton_of-IsSkeleton e =
      ground (
        arith,
        eq_iff kind "daemonjob",
        eq_iff kind "daemoncronjob",
        eq_iff kind "daemoncronjobset",
      )

  pub IsSkeleton-skeleton_of : IsSkeleton → skeleton_of kind ≡ some o
  unfolding skeleton_of
  IsSkeleton-skeleton_of (inl (k, e)) = rw (k, e) refl
  IsSkeleton-skeleton_of (inr (inl (k, e))) = rw (k, e) refl
  IsSkeleton-skeleton_of (inr (inr (k, e))) = rw (k, e) refl
