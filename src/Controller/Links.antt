-- ===== src/Controller/Links.antt =====
-- `GetService` and `getServiceName`: a link names a service by the path of its region,
-- environment, stack and name, of which the first two may be missing.
use load_balancer_controller.Base.{
  false, not, List, [], ◌∷◌, ◌++◌, ◌≡◌, ap, ◌∙◌, if◌then◌else◌, is_empty, Bool-cases, inl, inr,
}
use load_balancer_controller.Base.Text.{
  Text, split_byte, contains_byte, split_byte-prefix, split_byte-whole, more_pieces,
}
use load_balancer_controller.Base.Outcome.{Outcome, err}
use load_balancer_controller.Metadata.{
  Metadata, Service, Failure, panic, get_service_from_region_environment,
  get_service_in_local_region,
}

unfoldable pub get_service_name : Text → Text → Text → Text → Text
get_service_name svc stack region env =
    if not (is_empty region)
    then region ++ (b'/' ∷ (env ++ (b'/' ∷ (stack ++ (b'/' ∷ svc)))))
    else if not (is_empty env)
    then env ++ (b'/' ∷ (stack ++ (b'/' ∷ svc)))
    else stack ++ (b'/' ∷ svc)

-- One piece is an index out of range; five pieces and more are read as two.
unfoldable pub by_pieces : Metadata → List Text → Outcome Failure Service
unfolding get_service_from_region_environment get_service_in_local_region
by_pieces md (region ∷ env ∷ stack ∷ svc ∷ []) =
    get_service_from_region_environment md region env stack svc
by_pieces md (env ∷ stack ∷ svc ∷ []) = get_service_in_local_region md env stack svc
by_pieces md (stack ∷ svc ∷ _) = md.stack_service stack svc
by_pieces md _ = err panic

unfoldable pub get_service : Metadata → Text → Outcome Failure Service
unfolding by_pieces split_byte
get_service md link = by_pieces md (split_byte b'/' link)

two_pieces :
    (a b : Text)
    → contains_byte b'/' a ≡ false
    → contains_byte b'/' b ≡ false
    → split_byte b'/' (a ++ (b'/' ∷ b)) ≡ a ∷ b ∷ []
two_pieces a b h k =
    split_byte-prefix b'/' a b h ∙ ap (λ (l : List Text). a ∷ l) (split_byte-whole b'/' b k)

-- The name that the controller makes of a service, if no part of it holds a slash, is read back as
-- its parts: with a region the service is looked up in that region and environment, without one in
-- the environment of the local region, and without both in the local environment.
pub get_service-get_service_name :
    (md : Metadata) (svc stack region env : Text)
    → contains_byte b'/' svc ≡ false
    → contains_byte b'/' stack ≡ false
    → contains_byte b'/' region ≡ false
    → contains_byte b'/' env ≡ false
    → get_service md (get_service_name svc stack region env) ≡ (
        if not (is_empty region)
        then get_service_from_region_environment md region env stack svc
        else if not (is_empty env)
        then get_service_in_local_region md env stack svc
        else md.stack_service stack svc)
unfolding get_service get_service_name by_pieces
get_service-get_service_name md svc stack region env a b c d =
    let two = two_pieces stack svc b a in
    let three = more_pieces b'/' env _ d two in
    elim (Bool-cases (not (is_empty region))) [
      | inl e ↦ rw e (ap (λ (l : List Text). by_pieces md l) (more_pieces b'/' region _ c three))
      | inr e ↦ rw e (elim (Bool-cases (not (is_empty env))) [
        | inl f ↦ rw f (ap (λ (l : List Text). by_pieces md l) three)
        | inr f ↦ rw f (ap (λ (l : List Text). by_pieces md l) two)
      ])
    ]
