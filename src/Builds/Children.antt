-- ===== src/Builds/Children.antt =====
-- The loop of getAggregatedBuilds over the modules of a build: what it calls, and what it gathers.
use jfrog_client_go.Base.{
  ◌≡◌, refl, sym, ap, ◌∙◌, true, false, some, List, [], ◌∷◌, ◌++◌, ◌⊎◌, inl, inr, Elem, Elem-append,
  Elem-append_left, Elem-append_right, Bool-cases, arith,
}
use jfrog_client_go.Base.Outcome.{ok}
use jfrog_client_go.Base.Text.{Bytes}
use jfrog_client_go.Aql.Body.{Build, parse_name_and_version}
use jfrog_client_go.Builds.Aggregate.{
  Module, Run, IsSome, after, after-ok, after-IsSome, is_build, aggregate_modules,
}

module _ (build_type : Bytes) where
  -- A module among `modules` that is a build with the name and number `id`.
  abbrev pub IsChild : List Module → Bytes × Bytes → Type 0
  IsChild modules id =
      (m : Module) × Elem m modules
      × (is_build build_type m ≡ true)
      × (parse_name_and_version m.id false ≡ ok id)

  IsChild-there :
      (m : Module) (modules : List Module) (id : Bytes × Bytes)
      → IsChild modules id
      → IsChild (m ∷ modules) id
  IsChild-there m modules id (n, e, h, k) = (n, inr e, h, k)

  pub aggregate_modules-skip :
      (call : Bytes → Bytes → Run (List Build)) (acc : List Build) (m : Module)
      (modules : List Module)
      → is_build build_type m ≡ false
      → aggregate_modules build_type call acc (m ∷ modules)
        ≡ aggregate_modules build_type call acc modules
  unfolding aggregate_modules
  aggregate_modules-skip call acc m modules h = rw (h, aggregate_modules) refl

  pub aggregate_modules-take :
      (call : Bytes → Bytes → Run (List Build)) (acc : List Build) (m : Module)
      (modules : List Module)
      → is_build build_type m ≡ true
      → aggregate_modules build_type call acc (m ∷ modules)
        ≡ after (some (parse_name_and_version m.id false)) (λ id.
          after
            (call id.0 id.1)
            (λ builds. aggregate_modules build_type call (acc ++ builds) modules))
  unfolding aggregate_modules
  aggregate_modules-take call acc m modules h = rw (h, aggregate_modules) refl

  pub aggregate_modules-IsSome :
      (call : Bytes → Bytes → Run (List Build)) (acc : List Build) (modules : List Module)
      → ((id : Bytes × Bytes) → IsChild modules id → IsSome (call id.0 id.1))
      → IsSome (aggregate_modules build_type call acc modules)
  aggregate_modules-IsSome call acc [] h = unfold aggregate_modules in (ok acc, refl)
  aggregate_modules-IsSome call acc (m ∷ modules) h =
      let h' : (id : Bytes × Bytes) → IsChild modules id → IsSome (call id.0 id.1) =
        λ id c. h id (IsChild-there m modules id c) in
      elim (Bool-cases (is_build build_type m)) [
        | inl e ↦ rw (aggregate_modules-take call acc m modules e) (
            after-IsSome (some (parse_name_and_version m.id false)) _
              (parse_name_and_version m.id false, refl)
              λ id p.
                let parsed : parse_name_and_version m.id false ≡ ok id = ground arith in
                after-IsSome (call id.0 id.1) _ (h id (m, inl refl, e, parsed))
                  λ builds q. aggregate_modules-IsSome call (acc ++ builds) modules h')
        | inr e ↦
            rw (aggregate_modules-skip call acc m modules e)
              (aggregate_modules-IsSome call acc modules h')
      ]

  -- The build comes from the call for a child.
  abbrev pub FromChild : (Bytes → Bytes → Run (List Build)) → List Module → Build → Type 0
  FromChild call modules b =
      (id : Bytes × Bytes) × (bs : List Build) × IsChild modules id
      × (call id.0 id.1 ≡ some (ok bs))
      × Elem b bs

  FromChild-there :
      (call : Bytes → Bytes → Run (List Build)) (m : Module) (modules : List Module) (b : Build)
      → FromChild call modules b
      → FromChild call (m ∷ modules) b
  FromChild-there call m modules b (id, bs, c, r, e) = (id, bs, IsChild-there m modules id c, r, e)

  -- What the loop does on a module that is a build.
  take-inv :
      (call : Bytes → Bytes → Run (List Build)) (acc : List Build) (m : Module)
      (modules : List Module) (result : List Build)
      → is_build build_type m ≡ true
      → aggregate_modules build_type call acc (m ∷ modules) ≡ some (ok result)
      → (id : Bytes × Bytes) × (bs : List Build) × (parse_name_and_version m.id false ≡ ok id)
        × (call id.0 id.1 ≡ some (ok bs))
        × (aggregate_modules build_type call (acc ++ bs) modules ≡ some (ok result))
  take-inv call acc m modules result e h =
      let (id, p, rest) =
        after-ok (some (parse_name_and_version m.id false)) _ result
          (sym (aggregate_modules-take call acc m modules e) ∙ h) in
      let (bs, q, rest') = after-ok (call id.0 id.1) _ result rest in
      (id, bs, ground arith, q, rest')

  pub aggregate_modules-from :
      (call : Bytes → Bytes → Run (List Build)) (acc : List Build) (modules : List Module)
      (result : List Build) (b : Build)
      → aggregate_modules build_type call acc modules ≡ some (ok result)
      → Elem b result
      → Elem b acc ⊎ FromChild call modules b
  unfolding aggregate_modules
  aggregate_modules-from call acc [] result b h e =
      let same : acc ≡ result = ground arith in inl (rw same e)
  aggregate_modules-from call acc (m ∷ modules) result b h e =
      elim (Bool-cases (is_build build_type m)) [
        | inl t ↦
            let (id, bs, p, q, rest) = take-inv call acc m modules result t h in
            elim (aggregate_modules-from call (acc ++ bs) modules result b rest e) [
              | inl l ↦ elim (Elem-append b acc bs l) [
                | inl k ↦ inl k
                | inr k ↦ inr (id, bs, (m, inl refl, t, p), q, k)
              ]
              | inr c ↦ inr (FromChild-there call m modules b c)
            ]
        | inr t ↦
            elim (aggregate_modules-from call acc modules result b
              (sym (aggregate_modules-skip call acc m modules t) ∙ h) e) [
                | inl l ↦ inl l
                | inr c ↦ inr (FromChild-there call m modules b c)
              ]
      ]

  pub aggregate_modules-acc :
      (call : Bytes → Bytes → Run (List Build)) (acc : List Build) (modules : List Module)
      (result : List Build) (b : Build)
      → aggregate_modules build_type call acc modules ≡ some (ok result)
      → Elem b acc
      → Elem b result
  unfolding aggregate_modules
  aggregate_modules-acc call acc [] result b h e =
      let same : acc ≡ result = ground arith in rw (sym same) e
  aggregate_modules-acc call acc (m ∷ modules) result b h e =
      elim (Bool-cases (is_build build_type m)) [
        | inl t ↦
            let (id, bs, p, q, rest) = take-inv call acc m modules result t h in
            aggregate_modules-acc call (acc ++ bs) modules result b rest
              (Elem-append_left b acc bs e)
        | inr t ↦
            aggregate_modules-acc call acc modules result b
              (sym (aggregate_modules-skip call acc m modules t) ∙ h) e
      ]

  -- Each child was called, and what it gave is in the result.
  pub aggregate_modules-child :
      (call : Bytes → Bytes → Run (List Build)) (acc : List Build) (modules : List Module)
      (result : List Build) (id : Bytes × Bytes)
      → aggregate_modules build_type call acc modules ≡ some (ok result)
      → IsChild modules id
      → (bs : List Build) × (call id.0 id.1 ≡ some (ok bs))
        × ((b : Build) → Elem b bs → Elem b result)
  unfolding aggregate_modules
  aggregate_modules-child call acc [] result id h (n, e, k, p) = absurd e
  aggregate_modules-child call acc (m ∷ modules) result id h (n, inl e, k, p) =
      let t : is_build build_type m ≡ true = ap (is_build build_type) (sym e) ∙ k in
      let (id', bs, p', q, rest) = take-inv call acc m modules result t h in
      let parsed : parse_name_and_version m.id false ≡ ok id =
        ap (λ (i : Module). parse_name_and_version i.id false) (sym e) ∙ p in
      let same : id' ≡ id = ground arith in
      (
        bs,
        rw (sym same) q,
        λ b l.
            aggregate_modules-acc call (acc ++ bs) modules result b rest
              (Elem-append_right b acc bs l),
      )
  aggregate_modules-child call acc (m ∷ modules) result id h (n, inr e, k, p) =
      elim (Bool-cases (is_build build_type m)) [
        | inl t ↦
            let (id', bs, p', q, rest) = take-inv call acc m modules result t h in
            aggregate_modules-child call (acc ++ bs) modules result id rest (n, e, k, p)
        | inr t ↦
            aggregate_modules-child call acc modules result id
              (sym (aggregate_modules-skip call acc m modules t) ∙ h) (n, e, k, p)
      ]
