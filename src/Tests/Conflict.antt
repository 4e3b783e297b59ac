-- ===== src/Tests/Conflict.antt =====
-- The theorems on the merge at concrete inputs, and runs of `Resolve`.
use agent_memory.Prelude.{
  ◌<◌, ◌≡◌, ◌↔◌, refl, ap, true, [], ◌∷◌, some, inl, inr, length, All, arith,
}
use agent_memory.Prelude.Semilattice.{Semilattice}
use agent_memory.Types.Version.{compare_version, is_zero}
use agent_memory.Types.Clock.{zero_clock}
use agent_memory.Types.Clock.Laws.{ticks, witnesses, observes, issued, IsLater, issued-IsLater}
use agent_memory.Types.Value.{Value, Policy}
use agent_memory.Conflict.Lww.{lww, cmp_value}
use agent_memory.Conflict.Resolve.{choose_policy, resolve, resolve_view, resolve_many, agreed}
use agent_memory.Conflict.Resolve.Laws.{IsOf, resolve_semilattice}
use agent_memory.Conflict.Resolve.Many.{
  IsSubset, IsLeast, found_values, resolve_many_same, resolve_many-IsLeast, agreed_iff,
}
use agent_memory.Tests.Codec.{framed_codec}
use agent_memory.Tests.Values.{red, blue, red-IsPlain, blue-IsPlain, view_red, view_blue, view_none}

-- A register and a plain value.
abbrev register : Value
register = record red { policy = Policy.crdt_lwwreg }

abbrev set : Value
set = record red { policy = Policy.crdt_orset }

the_later : resolve red blue ≡ blue
unfolding resolve choose_policy is_zero compare_version lww cmp_value
the_later = refl

read_resolves : resolve_many (view_red ∷ view_none ∷ view_blue ∷ []) ≡ some blue
unfolding resolve_many resolve_view
read_resolves = ap some the_later

there : IsSubset (red ∷ blue ∷ []) (blue ∷ blue ∷ red ∷ [])
there v (inl e) = inr (inr (inl e))
there v (inr (inl e)) = inl e
there v (inr (inr i)) = absurd i

back : IsSubset (blue ∷ blue ∷ red ∷ []) (red ∷ blue ∷ [])
back v (inl e) = inr (inl e)
back v (inr (inl e)) = inr (inl e)
back v (inr (inr (inl e))) = inl e
back v (inr (inr (inr i))) = absurd i

resolve_many_same_example :
    resolve_many (view_red ∷ view_blue ∷ [])
    ≡ resolve_many (view_blue ∷ view_none ∷ view_blue ∷ view_red ∷ [])
resolve_many_same_example =
    resolve_many_same Policy.lww (view_red ∷ view_blue ∷ [])
      (view_blue ∷ view_none ∷ view_blue ∷ view_red ∷ []) (red-IsPlain, (blue-IsPlain, tt))
      (blue-IsPlain, (blue-IsPlain, (red-IsPlain, tt))) there back

resolve_many-IsLeast_example :
    IsLeast Policy.lww (found_values (view_red ∷ view_none ∷ view_blue ∷ [])) blue
resolve_many-IsLeast_example =
    resolve_many-IsLeast Policy.lww (view_red ∷ view_none ∷ view_blue ∷ []) blue
      (red-IsPlain, (blue-IsPlain, tt)) read_resolves

resolve_semilattice_example : Semilattice (IsOf Policy.crdt_orset) resolve
resolve_semilattice_example = resolve_semilattice Policy.crdt_orset

agreed_iff_example : (agreed (view_red ∷ view_none ∷ view_blue ∷ []) blue ≡ true) ↔ (
    (0 < length (found_values (view_red ∷ view_none ∷ view_blue ∷ [])))
    × All (λ v. v ≡ blue) (found_values (view_red ∷ view_none ∷ view_blue ∷ [])))
agreed_iff_example = agreed_iff (view_red ∷ view_none ∷ view_blue ∷ []) blue

issued-IsLater_example :
    IsLater 0
      (ticks ∷ witnesses 5 ∷ observes 9 ∷ ticks ∷ [])
      (issued zero_clock (ticks ∷ witnesses 5 ∷ observes 9 ∷ ticks ∷ []))
issued-IsLater_example =
    issued-IsLater (ticks ∷ witnesses 5 ∷ observes 9 ∷ ticks ∷ []) zero_clock 9 (omega arith)
      (omega arith, (omega arith, tt)) (omega arith)
