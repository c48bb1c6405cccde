-- ===== src/Adaptive/Order.antt =====
-- graphs/adaptive_interview.py: the results of parallel tools are merged in the order of their calls,
-- however they come in.
use mathlib.Core.List.{Permᴰ}
use interview_agent_py.Prelude.{
  ℕ, ◌≡◌, refl, sym, ◌∙◌, subst, List, [], ◌∷◌, map, false, contains, IsDistinct, nat_eq, arith,
  ◌==◌,
}
use interview_agent_py.Prelude.Sorting.{insert, sorted}
use interview_agent_py.Adaptive.{Memory, ToolEffect}
use interview_agent_py.Adaptive.Tools.{index_leb, merge_tool_results}

abbrev pub call_indices : List ToolEffect → List ℕ
call_indices = map (λ e. e.tool_call_index)

insert-insert :
    (a b : ToolEffect) (es : List ToolEffect)
    → (a.tool_call_index == b.tool_call_index) ≡ false
    → insert index_leb a (insert index_leb b es) ≡ insert index_leb b (insert index_leb a es)
unfolding insert
insert-insert a b [] differ = ground arith
insert-insert a b (e ∷ es) differ = ground (arith, insert-insert a b es)

contains-Permᴰ :
    {xs ys : List ToolEffect}
    → Permᴰ xs ys
    → (k : ℕ) → contains k (call_indices xs) ≡ contains k (call_indices ys)
unfolding contains
contains-Permᴰ Permᴰ.nil k = refl
contains-Permᴰ (Permᴰ.cons e d) k = rw (e, contains-Permᴰ d k) refl
contains-Permᴰ (Permᴰ.swap e f) k = rw (e, f) (ground arith)
contains-Permᴰ (Permᴰ.trans d e) k = contains-Permᴰ d k ∙ contains-Permᴰ e k

IsDistinct-Permᴰ :
    {xs ys : List ToolEffect}
    → Permᴰ xs ys
    → IsDistinct (call_indices xs)
    → IsDistinct (call_indices ys)
unfolding contains
IsDistinct-Permᴰ Permᴰ.nil h = tt
IsDistinct-Permᴰ (Permᴰ.cons {a} {b} {l₁} {l₂} e d) h = (
  subst (λ c. contains c.tool_call_index (call_indices l₂) ≡ false) e
      (sym (contains-Permᴰ d a.tool_call_index) ∙ h.0),
  IsDistinct-Permᴰ d h.1,
)
IsDistinct-Permᴰ (Permᴰ.swap {a} {b} {a'} {b'} {l} e f) h =
    let exchanged : IsDistinct (call_indices (b ∷ a ∷ l)) = (ground arith, (ground arith, h.1.1)) in
    subst (λ y. IsDistinct (call_indices (a' ∷ y ∷ l))) e
      (subst (λ x. IsDistinct (call_indices (x ∷ a ∷ l))) f exchanged)
IsDistinct-Permᴰ (Permᴰ.trans d e) h = IsDistinct-Permᴰ e (IsDistinct-Permᴰ d h)

-- Sorting forgets the order in which the results came, as their indices differ.
sorted-Permᴰ :
    {xs ys : List ToolEffect}
    → Permᴰ xs ys
    → IsDistinct (call_indices xs)
    → sorted index_leb xs ≡ sorted index_leb ys
unfolding sorted contains
sorted-Permᴰ Permᴰ.nil h = refl
sorted-Permᴰ (Permᴰ.cons e d) h = rw (e, sorted-Permᴰ d h.1) refl
sorted-Permᴰ (Permᴰ.swap {a} {b} {l = l} e f) h =
    rw (← e, ← f) (insert-insert a b (sorted index_leb l) (ground arith))
sorted-Permᴰ (Permᴰ.trans d e) h = sorted-Permᴰ d h ∙ sorted-Permᴰ e (IsDistinct-Permᴰ d h)

-- If the tool calls of a step have different indices, the memory after the merge is the same in
-- whatever order their results came in.
pub merge_tool_results-Permᴰ :
    (m : Memory) {effects effects' : List ToolEffect}
    → Permᴰ effects effects'
    → IsDistinct (call_indices effects)
    → merge_tool_results m effects ≡ merge_tool_results m effects'
unfolding merge_tool_results
merge_tool_results-Permᴰ m d distinct = rw (sorted-Permᴰ d distinct) refl
