-- ===== src/Linked/Links.antt =====
-- The links of the two lists of v1.0.0/inifile.c, of nodes and of keys, in the memory that holds
-- them: `listIniFileNode_…`, `listkeyValueNode_…` and `destoryListIniFileNode`.
pub mod Segment
pub mod Insert
pub mod Walk
pub mod Unlink
pub mod Delete
pub mod Destroy
use ini.Base.{Bool, Option, false, if◌then◌else◌, none, some, suc, true, update, zero, ℕ, ◌+◌, ◌==◌}
use ini.Linked.{Outcome, done, undefined, ◌>>=◌}
use ini.Memory.{◌>>◌}

module _ (A : Type 0) where
  -- A node: what it is about, and `pre` and `next`.
  pub record Link : Type 0 where
    pub payload : A
    pub pre : Option ℕ
    pub next : Option ℕ

  -- The memory; an address that was freed, or never given out, has no node.
  abbrev pub Links : Type 0
  Links = ℕ → Option Link

  pub record LinkList : Type 0 where
    pub links : Links
    pub head : Option ℕ
    pub tail : Option ℕ
    pub len : ℕ

-- A pointer that is followed.
abbrev pub through : {B : Type 0} → Option ℕ → (ℕ → Outcome B) → Outcome B
through none k = undefined
through (some i) k = k i

abbrev pub ptr_eq : Option ℕ → Option ℕ → Bool
ptr_eq none none = true
ptr_eq (some i) (some j) = i == j
ptr_eq _ _ = false

module _ {A : Type 0} where
  unfoldable pub node_at : Links A → ℕ → Outcome (Link A)
  node_at m i = elim (m i) [ none ↦ undefined | some n ↦ done n ]

  abbrev pub set_node : Links A → ℕ → Link A → Links A
  set_node m i n = update m i (some n)

  abbrev pub free : Links A → ℕ → Links A
  free m i = update m i none

  -- `list->head == NULL`, or behind the tail.
  unfoldable pub insert_at : LinkList A → ℕ → Link A → Option ℕ → Outcome (LinkList A)
  unfolding node_at
  insert_at s i n none = done (record {
    links = set_node s.links i (record n { pre = none; next = none });
    head = some i;
    tail = some i;
    len = s.len + 1;
  })
  insert_at s i n (some h) = through s.tail (λ t. do
    let m1 = set_node s.links i (record n { pre = some t })
    tn ← node_at m1 t
    let m2 = set_node m1 t (record tn { next = some i })
    n2 ← node_at m2 i
    done (record s {
      links = set_node m2 i (record n2 { next = none });
      tail = some i;
      len = s.len + 1;
    }))

  -- `listIniFileNode_insert` and `listkeyValueNode_insert`.
  unfoldable pub list_insert : LinkList A → ℕ → Outcome (LinkList A)
  unfolding insert_at
  list_insert s i = do n ← node_at s.links i; insert_at s i n s.head

  -- `while(p != NULL)` until `p == node`. A walk of more steps than are given is none of a list.
  unfoldable pub reaches : ℕ → Links A → Option ℕ → ℕ → Outcome Bool
  unfolding node_at
  reaches zero m p i = undefined
  reaches (suc n) m none i = done false
  reaches (suc n) m (some p) i =
      if p == i then done true else (do l ← node_at m p; reaches n m l.next i)

  -- `if(node->pre != NULL)`: the memory and the head.
  unfoldable pub unlink_before : Links A → Option ℕ → Link A → Outcome (Links A × Option ℕ)
  unfolding node_at
  unlink_before m head n = elim n.pre [
    | some p ↦ (do l ← node_at m p; done (set_node m p (record l { next = n.next }), head))
    | none ↦
        through n.next
          (λ q. do l ← node_at m q; done (set_node m q (record l { pre = none }), some q))
  ]

  -- `if(node->next != NULL)`: the memory and the tail.
  unfoldable pub unlink_after : Links A → Option ℕ → Link A → Outcome (Links A × Option ℕ)
  unfolding node_at
  unlink_after m tail n = elim n.next [
    | some q ↦ (do l ← node_at m q; done (set_node m q (record l { pre = n.pre }), tail))
    | none ↦
        through n.pre
          (λ p. do l ← node_at m p; done (set_node m p (record l { next = none }), some p))
  ]

  unfoldable pub unlink : LinkList A → ℕ → Outcome (LinkList A)
  unfolding unlink_before unlink_after
  unlink s i = do
    n ← node_at s.links i
    b ← unlink_before s.links s.head n
    n2 ← node_at b.0 i
    a ← unlink_after b.0 s.tail n2
    done (record s { links = free a.0 i; head = b.1; tail = a.1 })

  -- Only here the list is empty after its last key is gone. `len` stays as it is.
  unfoldable pub list_key_value_node_delete : ℕ → LinkList A → ℕ → Outcome (LinkList A)
  unfolding reaches unlink
  list_key_value_node_delete steps s i = do
    found ← reaches steps s.links s.head i
    if found
        then if ptr_eq s.head s.tail
          then done (record s { links = free s.links i; head = none; tail = none })
          else unlink s i
        else done s

  -- `listIniFileNode_delete`: the only node is freed, and `head` and `tail` are left. The keys of a
  -- node are another list.
  unfoldable pub list_node_delete : ℕ → LinkList A → ℕ → Outcome (LinkList A)
  unfolding reaches unlink
  list_node_delete steps s i = do
    found ← reaches steps s.links s.head i
    if found
        then if ptr_eq s.head s.tail then done (record s { links = free s.links i }) else unlink s i
        else done s

  -- `while(tail != head)`, from the tail on, then the head: the memory that is left.
  unfoldable pub free_loop : ℕ → Links A → Option ℕ → Option ℕ → Outcome (Links A)
  unfolding node_at
  free_loop zero m head tail = undefined
  free_loop (suc n) m head tail =
      if ptr_eq tail head
      then through head (λ h. do l ← node_at m h; done (free m h))
      else through tail (λ t. do l ← node_at m t; free_loop n (free m t) head l.pre)

  -- The nodes of `destoryListIniFileNode`, and of `listkeyValueNode_deleteall`.
  unfoldable pub destroy_list : ℕ → LinkList A → Outcome (Links A)
  unfolding free_loop
  destroy_list steps s = elim s.head [
    | none ↦ done s.links
    | some h ↦ free_loop steps s.links s.head s.tail
  ]
