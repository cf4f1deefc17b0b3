-- ===== src/Classes/Names.antt =====
-- The registry of internal/vcr/registry.go against the list of classes that it is made from.
use ceph_provider.Prelude.{
  String, some, List, [], ◌∷◌, ◌≡◌, refl, sym, ◌⊎◌, inl, inr, lookup, insert, lookup-insert, str_eq,
  eq_iff, Bool-cases, Option-cases, if◌then◌else◌,
}
use ceph_provider.Exec.{ok}
use ceph_provider.Classes.{Class, Registry, add_classes, new_class_registry, get_class}

unfoldable pub IsListed : Class → List Class → Type 0
IsListed c [] = ⊥
IsListed c (class ∷ classes) = (c ≡ class) ⊎ IsListed c classes

look :
    (name : String) (class : Class) (registry : Registry)
    → lookup name (insert class.name class registry)
      ≡ (if str_eq class.name name then some class else lookup name registry)
look name class registry = lookup-insert class.name name class registry

-- A class of the registry is found in the registry that the loop ends with, and so is each class of
-- the list; and nothing else is.
add_classes_lem :
    (classes : List Class) (registry result : Registry) (name : String) (c : Class)
    → add_classes classes registry ≡ ok result
    → ((lookup name registry ≡ some c → lookup name result ≡ some c)
        × (IsListed c classes → lookup c.name result ≡ some c))
      × (lookup name result ≡ some c
          → (lookup name registry ≡ some c) ⊎ ((name ≡ c.name) × IsListed c classes))
unfolding add_classes IsListed
add_classes_lem [] registry result name c h =
    let same : registry ≡ result = cc h in
    (((λ k. cc (same, k)), λ l. absurd l), λ k. inl (cc (same, k)))
add_classes_lem (class ∷ classes) registry result name c h =
    elim (Option-cases (lookup class.name registry)) [
      | inr (other, held) ↦ absurd (cc (rw (held, add_classes) at h))
      | inl missing ↦
          let rest =
            add_classes_lem classes (insert class.name class registry) result name c
              (rw (missing, add_classes) at h) in
          let self =
            add_classes_lem classes (insert class.name class registry) result c.name c
              (rw (missing, add_classes) at h) in
          (
            (
              (λ k. rest.0.0 (elim (Bool-cases (str_eq class.name name)) [
                | inl y ↦ absurd (cc ((eq_iff class.name name).0 y, missing, k))
                | inr n ↦ cc (rw n at (look name class registry), k)
              ])),
              λ l. elim l [ inl e ↦ self.0.0 (cc (e, own class)) | inr l' ↦ rest.0.1 l' ],
            ),
            λ k. elim (rest.1 k) [
              | inr (e, l) ↦ inr (e, inr l)
              | inl held ↦ elim (Bool-cases (str_eq class.name name)) [
                | inl y ↦
                    let q : class ≡ c = cc (rw y at (look name class registry), held) in
                    inr (cc ((eq_iff class.name name).0 y, q), inl (sym q))
                | inr n ↦ inl (cc (rw n at (look name class registry), held))
              ]
            ],
          )
    ]
  where
    own : (class : Class) → lookup class.name (insert class.name class registry) ≡ some class
    own class = rw ((eq_iff class.name class.name).1 refl) at (look class.name class registry)

-- A registry that New makes has exactly the classes of its list, each under its name.
pub new_class_registry-IsListed :
    (classes : List Class) (registry : Registry) (name : String) (c : Class)
    → new_class_registry classes ≡ ok registry
    → (IsListed c classes → get_class registry c.name ≡ some c)
      × (get_class registry name ≡ some c → (name ≡ c.name) × IsListed c classes)
unfolding new_class_registry get_class lookup
new_class_registry-IsListed classes registry name c h =
    let all = add_classes_lem classes [] registry name c h in
    (all.0.1, λ k. elim (all.1 k) [ inl e ↦ absurd (cc e) | inr q ↦ q ])
