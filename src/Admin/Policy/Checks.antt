-- ===== src/Admin/Policy/Checks.antt =====
-- The check of a policy in internal/admin/policy.go writes nothing.
use unirate.Prelude.{◌≡◌, refl, Option-cases, inl, inr}
use unirate.Meta.{Request}
use unirate.Admin.Change.{World, Sent}
use unirate.Admin.Policy.{Parts, PolicyPayload, handle_policy_validate}

pub handle_policy_validate-same :
    (h : Parts) (env : Sent PolicyPayload) (w : World) (r : Request)
    → (handle_policy_validate h env w r).0 ≡ w
unfolding handle_policy_validate
handle_policy_validate-same h env w r = elim (Option-cases env.payload) [
  | inl bad ↦ rw bad refl
  | inr (p, read) ↦ rw read refl
]
