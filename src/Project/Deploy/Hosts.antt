-- ===== src/Project/Deploy/Hosts.antt =====
-- The host of a deployment and the wildcard record of its cluster.
use mathlib.Core.List.{append_assoc}
use orchestronic_be.Base.{
  [], ◌∷◌, ◌++◌, All, ◌≡◌, ◌↔◌, refl, sym, ap, ◌∙◌, arith, false, ◌==◌, length, ◌+◌, String,
}
use orchestronic_be.Base.Text.{Text, codes, trim, remove_quotes}
use orchestronic_be.Schema.{CloudProvider, RepositoryRow, ClusterRow}
use orchestronic_be.Project.Deploy.{clean_name, wildcard_of, host_of, host_name, dns_params}

-- A DNS label: nonempty and without a dot.
abbrev pub NoDots : Text → Type 0
NoDots s = All (λ c. (c == b'.') ≡ false) s

abbrev pub IsNonempty : Text → Type 0
IsNonempty [] = ⊥
IsNonempty (c ∷ s) = Unit

-- A wildcard record `*.zone` answers for the names with exactly one label more than the zone.
pub record Covers (wildcard host : Text) : Type 0 where
  pub label : Text
  pub zone : Text
  pub one_label : NoDots label
  pub nonempty : IsNonempty label
  pub is_wildcard : wildcard ≡ codes "*." ++ zone
  pub below : host ≡ label ++ codes "." ++ zone

-- What follows the first dot of a name is the same however the name is cut there.
rest_unique :
    (a b s t : Text) → NoDots a → NoDots b → a ++ codes "." ++ s ≡ b ++ codes "." ++ t → s ≡ t
rest_unique [] [] s t ha hb e = cc
rest_unique [] (d ∷ b) s t ha hb e = absurd (ground arith)
rest_unique (c ∷ a) [] s t ha hb e = absurd (ground arith)
rest_unique (c ∷ a) (d ∷ b) s t ha hb e = rest_unique a b s t ha.1 hb.1 cc

length-append : (a s : Text) → length (a ++ s) ≡ length a + length s
length-append [] s = omega arith
length-append (c ∷ a) s = grind (arith, length-append a s)

append_cancel_right : (a b s : Text) → a ++ s ≡ b ++ s → a ≡ b
append_cancel_right [] [] s e = refl
append_cancel_right [] (d ∷ b) s e =
    let same = ap length e in absurd (omega (arith, same, length-append b s))
append_cancel_right (c ∷ a) [] s e =
    let same = ap length e in absurd (omega (arith, same, length-append a s))
append_cancel_right (c ∷ a) (d ∷ b) s e = let same = append_cancel_right a b s cc in cc

-- The host of a deployment is covered by the wildcard record of its cluster exactly when the name
-- of the cluster in the host is its name without quotes and outer spaces, for a repository whose
-- name is one label.
pub covered_iff :
    (p : CloudProvider) (cluster : ClusterRow) (repository : RepositoryRow)
    → NoDots (codes repository.name)
    → IsNonempty (codes repository.name)
    → Covers (wildcard_of (clean_name cluster)) (host_of repository (host_name p cluster))
      ↔ (host_name p cluster ≡ clean_name cluster)
covered_iff p cluster repository label some_label = (
  λ c.
      let zones : c.zone ≡ clean_name cluster ++ codes ".orchestronic.dev" =
        let w = c.is_wildcard in cc in
      let rest =
        rest_unique (codes repository.name) c.label
          (host_name p cluster ++ codes ".orchestronic.dev") c.zone label c.one_label
          (sym (
              append_assoc (codes repository.name ++ codes ".") (host_name p cluster)
                (codes ".orchestronic.dev"))
            ∙ c.below) in
      append_cancel_right (host_name p cluster) (clean_name cluster) (codes ".orchestronic.dev")
        (rest ∙ zones),
  λ e. record {
    label = codes repository.name;
    zone = clean_name cluster ++ codes ".orchestronic.dev";
    one_label = label;
    nonempty = some_label;
    is_wildcard = refl;
    below = rw e (
        append_assoc (codes repository.name ++ codes ".") (clean_name cluster)
          (codes ".orchestronic.dev"));
  },
)

-- For a repository whose name is one label: on AWS the wildcard record that a deployment asks for
-- covers the host of the deployment, and on Azure it does so exactly when trimming the name of the
-- cluster and removing its quotes leaves the name as it is.
pub hosts_covered :
    (cluster : ClusterRow) (repository : RepositoryRow) (ip : String)
    → NoDots (codes repository.name)
    → IsNonempty (codes repository.name)
    → Covers (dns_params cluster ip).fqdn (host_of repository (host_name CloudProvider.aws cluster))
      × (Covers
            (dns_params cluster ip).fqdn
            (host_of repository (host_name CloudProvider.azure cluster))
          ↔ (remove_quotes (trim (codes cluster.cluster_name)) ≡ codes cluster.cluster_name))
unfolding host_name
hosts_covered cluster repository ip label some_label =
    let azure = covered_iff CloudProvider.azure cluster repository label some_label in
    (
      (covered_iff CloudProvider.aws cluster repository label some_label).1 refl,
      ((λ c. sym (azure.0 c)), (λ e. azure.1 (sym e))),
    )
