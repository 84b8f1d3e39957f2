-- ===== src/Update/Container.antt =====
-- podspec.go: containers, security contexts and resources.
use vitess_operator.Prelude.{
  String, Bool, Option, none, some, List, Map, if◌then◌else◌, string_eq, ◌==◌,
}
use vitess_operator.Update.Merge.{VolumeMount, update_entries, volume_mounts, resource_list}

-- The pointers of `corev1.SecurityContext` that are kept where `src` leaves them nil, and the
-- other fields.
pub record SecurityContext (C R : Type 0) : Type 0 where
  pub proc_mount : Option String
  pub allow_privilege_escalation : Option Bool
  pub capabilities : Option C
  pub read_only_root_filesystem : Option Bool
  pub run_as_group : Option String
  pub rest : R

abbrev pub or_saved : {A : Type 0} → Option A → Option A → Option A
or_saved none saved = saved
or_saved (some a) saved = some a

-- The result is nil where `src` is.
unfoldable pub security_context :
    {C R : Type 0}
    → Option (SecurityContext C R)
    → Option (SecurityContext C R)
    → Option (SecurityContext C R)
security_context none src = src
security_context (some d) none = none
security_context (some d) (some s) = some (record s {
  proc_mount = or_saved s.proc_mount d.proc_mount;
  allow_privilege_escalation = or_saved s.allow_privilege_escalation d.allow_privilege_escalation;
  capabilities = or_saved s.capabilities d.capabilities;
  read_only_root_filesystem = or_saved s.read_only_root_filesystem d.read_only_root_filesystem;
  run_as_group = or_saved s.run_as_group d.run_as_group;
})

pub record ResourceRequirements (Q : Type 0) : Type 0 where
  pub limits : Map String Q
  pub requests : Map String Q

unfoldable resource_requirements :
    {Q : Type 0} → ResourceRequirements Q → ResourceRequirements Q → ResourceRequirements Q
unfolding resource_list
resource_requirements dst src = record {
  limits = resource_list dst.limits src.limits;
  requests = resource_list dst.requests src.requests;
}

-- `corev1.Container`: quantities, capabilities, the rest of a security context, of a volume mount
-- and of the container are parameters.
pub record Container (Q C R V F : Type 0) : Type 0 where
  pub name : String
  pub resources : ResourceRequirements Q
  pub security : Option (SecurityContext C R)
  pub mounts : List (VolumeMount V)
  pub image_pull_policy : String
  pub fields : F

module _ {Q C R V F : Type 0} where
  unfoldable pod_container : Container Q C R V F → Container Q C R V F → Container Q C R V F
  unfolding resource_requirements security_context volume_mounts
  pod_container dst src = record src {
    resources = resource_requirements dst.resources src.resources;
    security = security_context dst.security src.security;
    mounts = volume_mounts dst.mounts src.mounts;
    image_pull_policy =
        if src.image_pull_policy == "" then dst.image_pull_policy else src.image_pull_policy;
  }

  unfoldable pod_template_container :
      Container Q C R V F → Container Q C R V F → Container Q C R V F
  unfolding resource_requirements security_context
  pod_template_container dst src = record src {
    resources = resource_requirements dst.resources src.resources;
    security = security_context dst.security src.security;
  }

  abbrev same_container : Container Q C R V F → Container Q C R V F → Bool
  same_container d s = d.name == s.name

  unfoldable pod_containers :
      List (Container Q C R V F) → List (Container Q C R V F) → List (Container Q C R V F)
  unfolding update_entries pod_container
  pod_containers = update_entries same_container pod_container

  unfoldable pod_template_containers :
      List (Container Q C R V F) → List (Container Q C R V F) → List (Container Q C R V F)
  unfolding update_entries pod_template_container
  pod_template_containers = update_entries same_container pod_template_container
