-- ===== src/Extract/Launch/Laws.antt =====
-- What a launch of the captured program tells the tool.
use krepe.Prelude.{
  ap, ℕ, ◌≡◌, refl, ◌∙◌, Bool, true, false, Option, none, some, [], Bytes, Text, length, take_all,
  arith, if◌then◌else◌,
}
use krepe.Capture.DataSize.{Host}
use krepe.Capture.Hooks.{Tool, register_kernel, should_dump_views_for_invocation}
use krepe.Capture.Hooks.Kernels.{will_dump-begin}
use krepe.Capture.Hooks.Entries.{
  Entry, enter, krepe_kernel_dump_copy_functor, krepe_kernel_dump_copy_nvcc_lambda, copies_functor,
  krepe_kernel_dump_next_invocation_will_dump,
}
use mathlib.Core.Path.{subst}
use krepe.Capture.Hooks.Entries.{
  registers_scalar, registers_range, registers_mdrange, registers_team, adds_metadata,
  copies_nvcc_lambda, asks, clears_views, registers_view, allocates, deallocates, provides_fence,
}
use krepe.Capture.Names.{until_null}
use krepe.Kokkos.{Policy, number, range, mdrange, team}
use krepe.Extract.Bounds.{CapturedBuild, register_bounds, iteration_pattern_to_string}
use krepe.Common.Bytes.{load, length-load}
use krepe.Common.Lambdas.{size_of, visit_hdl_host_lambdas}
use krepe.Extract.Forward.{
  Linker, Program, init_internal_functions, forward, next_invocation_will_dump,
}
use krepe.Extract.Closures.{copy_host_closures, copy_nvcc_functor}
use krepe.Extract.Launch.{Functor, plain, extended_lambda, replay_functor, launch, parallel_for}

abbrev with_policy : Tool → Tool → Tool
with_policy t described = record t { policy = described.policy }

-- The call registers a policy.
abbrev IsRegistration : Entry → Type 0
IsRegistration (registers_scalar n) = Unit
IsRegistration (registers_range _ _ _ _ _ _ _) = Unit
IsRegistration (registers_mdrange _ _ _ _ _ _ _ _ _ _) = Unit
IsRegistration (registers_team _ _ _ _ _ _ _ _ _ _ _ _) = Unit
IsRegistration _ = ⊥

abbrev MayRegister : Option Entry → Type 0
MayRegister none = Unit
MayRegister (some e) = IsRegistration e

register_bounds-MayRegister :
    (built : CapturedBuild) (policy : Policy) → MayRegister (register_bounds built policy)
unfolding register_bounds
register_bounds-MayRegister built (number n) = tt
register_bounds-MayRegister built (range p) = tt
register_bounds-MayRegister built (mdrange p) =
    named (iteration_pattern_to_string p.outer_direction)
      (iteration_pattern_to_string p.inner_direction) refl refl
  where
    named :
        (outer inner : Option Text)
        → iteration_pattern_to_string p.outer_direction ≡ outer
        → iteration_pattern_to_string p.inner_direction ≡ inner
        → MayRegister (register_bounds built (mdrange p))
    named none inner o i = rw (o, register_bounds) tt
    named (some outer) none o i = rw (o, i, register_bounds) tt
    named (some outer) (some inner) o i = rw (o, i, register_bounds) tt
register_bounds-MayRegister built (team p) = tt

-- To register a policy changes nothing else.
registers_policy :
    (h : Host) (e : Entry) (t : Tool) → IsRegistration e → enter h e t ≡ with_policy t (enter h e t)
unfolding enter
registers_policy h (registers_scalar n) t r = refl
registers_policy h (registers_range _ _ _ _ _ _ _) t r = refl
registers_policy h (registers_mdrange _ _ _ _ _ _ _ _ _ _) t r = refl
registers_policy h (registers_team _ _ _ _ _ _ _ _ _ _ _ _) t r = refl
registers_policy h (adds_metadata _ _ _) t r = elim r [ ]
registers_policy h (copies_functor _ _) t r = elim r [ ]
registers_policy h (copies_nvcc_lambda _ _ _ _) t r = elim r [ ]
registers_policy h (asks _) t r = elim r [ ]
registers_policy h clears_views t r = elim r [ ]
registers_policy h (registers_view _ _) t r = elim r [ ]
registers_policy h (allocates _ _ _ _) t r = elim r [ ]
registers_policy h (deallocates _ _) t r = elim r [ ]
registers_policy h (provides_fence _) t r = elim r [ ]

-- The bytes of the functor object.
abbrev pub object_bytes : Functor → Bytes
object_bytes (plain bytes) = bytes
object_bytes (extended_lambda pointers type functor m) = load functor (size_of type) m

-- The bytes of its host closures, which are only looked for with the workaround.
abbrev pub inner_bytes : Bool → Functor → Bytes
inner_bytes w (plain bytes) = []
inner_bytes false (extended_lambda pointers type functor m) = []
inner_bytes true (extended_lambda pointers type functor m) =
    copy_host_closures (visit_hdl_host_lambdas pointers type functor m) m

-- The tool that a launch leaves, with the answer of the tool.
abbrev captured : Bool → Tool → Tool → Functor → Tool
captured w t described functor = record t {
  policy = described.policy;
  functor_data = object_bytes functor;
  nvcc_inner_lambda_data = inner_bytes w functor;
}

decision_kept :
    (w : Bool) (label : Text) (device_id : ℕ) (t described : Tool) (functor : Functor)
    → (register_kernel label device_id (captured w t described functor)).dump_this_kernel
      ≡ (register_kernel label device_id t).dump_this_kernel
unfolding register_kernel should_dump_views_for_invocation
decision_kept w label device_id t described functor = refl

asked_with_tool :
    (k : Linker) (h : Host) (label : Text) (p : Program)
    → init_internal_functions k p.has_kernel_dump_tool ≡ true
    → let (answer, t) = krepe_kernel_dump_next_invocation_will_dump label p.tool in
      next_invocation_will_dump k h label p
      ≡ (answer, record { has_kernel_dump_tool = some true; tool = t })
unfolding next_invocation_will_dump
asked_with_tool k h label p loaded = rw (loaded, next_invocation_will_dump) refl

abbrev with_bytes : Tool → Bytes → Bytes → Tool
with_bytes t functor inner = record t { functor_data = functor; nvcc_inner_lambda_data = inner }

-- What the tool is given of a functor.
replay_functor_with_tool :
    (w : Bool) (k : Linker) (h : Host) (t : Tool) (functor : Functor)
    → replay_functor w k h functor (record { has_kernel_dump_tool = some true; tool = t })
      ≡ record {
        has_kernel_dump_tool = some true;
        tool = with_bytes t (object_bytes functor) (inner_bytes w functor);
      }
unfolding replay_functor copy_nvcc_functor forward init_internal_functions enter
    krepe_kernel_dump_copy_functor krepe_kernel_dump_copy_nvcc_lambda
replay_functor_with_tool w k h t (plain bytes) =
    rw (take_all (length bytes) bytes (omega arith)) refl
replay_functor_with_tool true k h t (extended_lambda pointers type functor m) =
    let inner = copy_host_closures (visit_hdl_host_lambdas pointers type functor m) m in
    rw
      (
        take_all (size_of type) (load functor (size_of type) m)
            (omega (arith, length-load functor (size_of type) m)),
        take_all (length inner) inner (omega arith),
      )
      refl
replay_functor_with_tool false k h t (extended_lambda pointers type functor m) =
    rw
      (take_all (size_of type) (load functor (size_of type) m)
        (omega (arith, length-load functor (size_of type) m)))
      refl

-- The two calls that a dumped launch makes.
described_with_tool :
    (w : Bool) (k : Linker) (h : Host) (t : Tool) (e : Entry) (functor : Functor)
    → IsRegistration e
    → replay_functor w k h functor
        (forward k h e (record { has_kernel_dump_tool = some true; tool = t }))
      ≡ record { has_kernel_dump_tool = some true; tool = captured w t (enter h e t) functor }
unfolding forward init_internal_functions
described_with_tool w k h t e functor r =
    replay_functor_with_tool w k h (enter h e t) functor
    ∙ ap
        (λ (x : Tool). record {
          has_kernel_dump_tool = some true;
          tool = with_bytes x (object_bytes functor) (inner_bytes w functor);
        })
        (registers_policy h e t r)

launched_with_tool :
    (w : Bool) (k : Linker) (h : Host) (built : CapturedBuild) (label : Text) (policy : Policy)
    (functor : Functor) (p : Program) (e : Entry)
    → init_internal_functions k p.has_kernel_dump_tool ≡ true
    → register_bounds built policy ≡ some e
    → let (answer, t) = krepe_kernel_dump_next_invocation_will_dump (until_null label) p.tool in
      parallel_for w k h built label policy functor p ≡ (
        some policy,
        record {
          has_kernel_dump_tool = some true;
          tool = if answer then captured w t (enter h e t) functor else t;
        },
      )
unfolding parallel_for launch
launched_with_tool w k h built label policy functor p e loaded described =
    ap (λ (x : Bool × Program). launch w k h built policy functor x.0 x.1)
      (asked_with_tool k h (until_null label) p loaded)
    ∙ branch (krepe_kernel_dump_next_invocation_will_dump (until_null label) p.tool).0
        (krepe_kernel_dump_next_invocation_will_dump (until_null label) p.tool).1
  where
    branch :
        (answer : Bool) (t : Tool)
        → launch w k h built policy functor answer
            (record { has_kernel_dump_tool = some true; tool = t })
          ≡ (
            some policy,
            record {
              has_kernel_dump_tool = some true;
              tool = if answer then captured w t (enter h e t) functor else t;
            },
          )
    branch true t =
        let known = subst MayRegister described (register_bounds-MayRegister built policy) in
        rw (described, launch)
          (ap (λ (x : Program). (some policy, x)) (described_with_tool w k h t e functor known))
    branch false t = refl

-- With the tool and a policy that can be described, a launch starts the policy as it is. If the tool
-- answers that it will dump the kernel, the tool then holds the description of the policy, the bytes of
-- the functor object and, of an extended lambda in a build with the workaround, those of its host
-- closures one after the other, else none; otherwise it is as the question left it. Either way, the
-- kernel that begins next under this label is dumped exactly if the tool said so.
pub parallel_for_with_tool :
    (w : Bool) (k : Linker) (h : Host) (built : CapturedBuild) (label : Text) (policy : Policy)
    (functor : Functor) (p : Program) (e : Entry) (device_id : ℕ)
    → init_internal_functions k p.has_kernel_dump_tool ≡ true
    → register_bounds built policy ≡ some e
    → let (launched, q) = parallel_for w k h built label policy functor p in
      let (answer, t) = krepe_kernel_dump_next_invocation_will_dump (until_null label) p.tool in
      (launched ≡ some policy)
      × (q.tool ≡ (
          if answer
          then record t {
            policy = (enter h e t).policy;
            functor_data = object_bytes functor;
            nvcc_inner_lambda_data = inner_bytes w functor;
          }
          else t))
      × ((register_kernel (until_null label) device_id q.tool).dump_this_kernel ≡ answer)
parallel_for_with_tool w k h built label policy functor p e device_id loaded described =
    let out = launched_with_tool w k h built label policy functor p e loaded described in
    rw out (
      refl,
      refl,
      decided (krepe_kernel_dump_next_invocation_will_dump (until_null label) p.tool).0
          ∙ will_dump-begin (until_null label) device_id p.tool,
    )
  where
    t : Tool
    t = (krepe_kernel_dump_next_invocation_will_dump (until_null label) p.tool).1

    decided :
        (answer : Bool)
        → (register_kernel
            (until_null label)
            device_id
            (if answer then captured w t (enter h e t) functor else t)).dump_this_kernel
          ≡ (register_kernel (until_null label) device_id t).dump_this_kernel
    decided true = decision_kept w (until_null label) device_id t (enter h e t) functor
    decided false = refl
