-- ===== src/Clist.antt =====
-- clist.h: the macros of the circular doubly linked list, over an explicit heap of links.
-- A macro's argument that is an expression with side effects or reads, such as
-- `(token)->_next`, is evaluated at each of its occurrences; `token` is a command here.
-- A macro that assigns to its argument `list` returns the new value.
pub mod Ring
pub mod Insert
pub mod Delete
pub mod Foreach
pub mod AddAfter
pub mod Drain
mod Tests
use udprelayd.Base.{ℕ, zero, suc, Option, none, some, List, [], ◌∷◌, ◌==◌, if◌then◌else◌}

abbrev pub Ptr : Type 0
Ptr = ℕ

abbrev pub null : Ptr
null = 0

-- The members `_prev` and `_next` of an item.
pub record Node : Type 0 where
  pub prev : Ptr
  pub next : Ptr

abbrev pub node : Ptr → Ptr → Node
node p q = record { prev = p; next = q }

abbrev pub Heap : Type 0
Heap = Ptr → Option Node

unfoldable pub write : Heap → Ptr → Option Node → Heap
write h p c a = if a == p then c else h a

-- `none` is a fault: a read or a write through `NULL` or through an item that is not allocated.
abbrev pub Cmd : Type 0 → Type 0
Cmd A = Heap → Option (A × Heap)

abbrev pub pure : {A : Type 0} → A → Cmd A
pure a h = some (a, h)

infixl 5 ◌>>=◌ ◌>>◌
abbrev pub ◌>>=◌ : {A B : Type 0} → Cmd A → (A → Cmd B) → Cmd B
◌>>=◌ m f h = elim (m h) [ none ↦ none | some (a, g) ↦ f a g ]

abbrev pub ◌>>◌ : {B : Type 0} → Cmd (Unit {0}) → Cmd B → Cmd B
m >> n = m >>= λ _. n

-- `*p`
unfoldable pub load : Ptr → Cmd Node
load p h = if p == null then none else elim (h p) [ none ↦ none | some n ↦ some (n, h) ]

-- `p->_prev = q`
unfoldable pub set_prev : Ptr → Ptr → Cmd (Unit {0})
set_prev p q = do n ← load p; λ h. some (tt, write h p (some (record n { prev = q })))

-- `p->_next = q`
unfoldable pub set_next : Ptr → Ptr → Cmd (Unit {0})
set_next p q = do n ← load p; λ h. some (tt, write h p (some (record n { next = q })))

-- `free(p)`
unfoldable pub free : Ptr → Cmd (Unit {0})
free p = do _ ← load p; λ h. some (tt, write h p none)

unfoldable pub add_before : Cmd Ptr → Ptr → Cmd (Unit {0})
add_before token item = do
  t ← token
  t ← load t
  set_prev item t.prev
  t ← token
  set_next item t
  t ← token
  t ← load t
  set_next t.prev item
  t ← token
  set_prev t item

unfoldable pub add_after : Ptr → Ptr → Cmd (Unit {0})
add_after token item = add_before (do t ← load token; pure t.next) item

unfoldable pub add_last : Ptr → Ptr → Cmd Ptr
add_last list item =
    if list == null
    then (do set_prev item item; set_next item item; pure item)
    else (do add_before (pure list) item; pure list)

unfoldable pub add_first : Ptr → Ptr → Cmd Ptr
add_first list item = do list ← add_last list item; n ← load list; pure n.prev

-- the first `if` of `CLIST_DEL`
unfoldable pub del_head : Ptr → Ptr → Cmd Ptr
del_head list item =
    if item == list
    then (do n ← load item; pure (if n.next == item then null else n.next))
    else pure list

unfoldable pub del : Ptr → Ptr → Cmd Ptr
del list item = do
  list ← del_head list item
  n ← load item
  set_next n.prev n.next
  n ← load item
  set_prev n.next n.prev
  pure list

-- `token != NULL ? (token->_next != list ? token->_next : NULL) : NULL`
unfoldable pub next_token : Ptr → Ptr → Cmd Ptr
next_token list token =
    if token == null
    then pure null
    else (do n ← load token; pure (if n.next == list then null else n.next))

-- The loop of `CLIST_FOREACH`. The body takes the item and the list head, and returns the list
-- head after it. The result is the items visited and the final head; `none` is also what a loop
-- without enough fuel returns.
unfoldable pub foreach_loop : ℕ → (Ptr → Ptr → Cmd Ptr) → Ptr → Ptr → Ptr → Cmd (List Ptr × Ptr)
foreach_loop zero body item token list = λ _. none
foreach_loop (suc k) body item token list = if item == null then pure ([], list) else (do
  list ← body item list
  after ← next_token list token
  (visited, list) ← foreach_loop k body token after list
  pure (item ∷ visited, list))

unfoldable pub foreach : ℕ → (Ptr → Ptr → Cmd Ptr) → Ptr → Cmd (List Ptr × Ptr)
foreach fuel body list = do token ← next_token list list; foreach_loop fuel body list token list

-- The loop `while((item = list) != NULL)` that unlinks each item by `CLIST_DEL` and then releases it;
-- `none` is also what it returns without enough fuel.
unfoldable pub drain : ℕ → (Ptr → Cmd (Unit {0})) → Ptr → Cmd Ptr
drain zero release list = λ _. none
drain (suc k) release list =
    if list == null
    then pure list
    else (do rest ← del list list; release list; drain k release rest)
