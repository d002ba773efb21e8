-- ===== src/Env/Links.antt =====
-- The doubly linked lists of vmiop-env.c: `vmiope_list_insert`, `vmiope_list_remove` and
-- `vmiope_list_apply`.
--
-- A node is its address. The pairs of pointers of all nodes are one store, so that two lists may
-- share it, as the list of devices and the free list do; NULL is `none`.
pub mod Chain
pub mod Remove
use citrix_vgpu.Prelude.{
  ℕ, suc, zero, ◌+◌, ◌%◌, ◌^◌, Bool, true, false, Option, none, some, List, [], ◌∷◌, update,
  if◌then◌else◌,
}

pub record Links : Type 0 where
  pub next : ℕ → Option ℕ
  pub prev : ℕ → Option ℕ

-- `p->next = v` and `p->prev = v`, where `p` is not NULL.
unfoldable pub set_next : Option ℕ → Option ℕ → Links → Links
set_next none v s = s
set_next (some p) v s = record s { next = update s.next p v }

unfoldable pub set_prev : Option ℕ → Option ℕ → Links → Links
set_prev none v s = s
set_prev (some p) v s = record s { prev = update s.prev p v }

-- The new head and the new store. The `prev` of the new node is written only if the list is empty.
unfoldable pub list_insert : ℕ → Option ℕ → Links → Option ℕ × Links
unfolding set_next set_prev
list_insert x head s =
    let s1 = set_next (some x) head s in
    elim head [
      | some h ↦ (some x, set_prev (some h) (some x) s1)
      | none ↦ (some x, set_prev (some x) none s1)
    ]

abbrev pub head_without : Option ℕ → Option ℕ → Option ℕ → Option ℕ
head_without none after head = after
head_without (some p) after head = head

-- What `vmiope_list_remove` does with the store
unfoldable pub detach : ℕ → Links → Links
unfolding set_next set_prev
detach x s =
    let s1 = set_next (s.prev x) (s.next x) s in
    let s2 = set_prev (s1.next x) (s1.prev x) s1 in
    set_next (some x) none (set_prev (some x) none s2)

unfoldable pub list_remove : ℕ → Option ℕ → Links → Option ℕ × Links
list_remove x head s = (head_without (s.prev x) (s.next x) head, detach x s)

-- `vmiope_list_apply` with a function that tests a node: the first node it accepts. The fuel bounds
-- the length of the list.
unfoldable pub list_apply : ℕ → Option ℕ → (ℕ → Bool) → Links → Option ℕ
list_apply zero head f s = none
list_apply (suc n) none f s = none
list_apply (suc n) (some x) f s =
    let rest = list_apply n (s.next x) f s in if f x then some x else rest
