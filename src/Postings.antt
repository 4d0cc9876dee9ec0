-- ===== src/Postings.antt =====
-- helper.c: `struct LinkedList`, the lines of the documents that hold a word. A list of nodes is the
-- list of what its nodes hold; a pointer to a node is its place in the list. `none` is a write past
-- an array.
pub mod Lines
use search_engine.Common.{
  ℕ, zero, suc, ◌+◌, ◌%◌, ◌^◌, Option, none, some, List, [], ◌∷◌, leb, ltb, ◌==◌, if◌then◌else◌,
  get_elem?, set, length,
}
use search_engine.Common.Int.{ℤ, pos, negsuc}
use search_engine.Table.{Realloc}

pub record Link : Type 0 where
  pub val : ℕ
  pub list : List ℕ
  pub list_len : ℕ
  pub last_index : ℕ

-- What the lists of lines take from the allocator: `tc_calloc(1, n * sizeof(size_t))` and
-- `tc_realloc`, with its sizes in elements. The fixed-size structs are taken to be allocated.
pub record LineMemory : Type 0 where
  pub calloc : ℕ → Option (List ℕ)
  pub realloc : Realloc ℕ

abbrev pub list_size : ℕ
list_size = 10

-- LINKLIST of `resize`.
pub resize_link : LineMemory → Link → ℤ × Link
resize_link memory linklist =
    let new_len = (linklist.list_len + list_size) % 2 ^ 64 in
    elim (memory.realloc linklist.list linklist.list_len new_len) [
      | none ↦ (negsuc 0, linklist)
      | some new_list ↦ (pos 1, record linklist { list = new_list; list_len = new_len })
    ]

-- `Linklist->list[index] = val; Linklist->last_index++`.
pub write_line : Link → ℕ → ℕ → Option Link
write_line linklist val index =
    if ltb index (length linklist.list)
    then some (record linklist {
      list = set linklist.list index val;
      last_index = linklist.last_index + 1;
    })
    else none

-- `insert(list, NULL, val, index, LINKLIST)`, which returns 1. The result of `resize` is not looked
-- at.
pub insert : LineMemory → Link → ℕ → ℕ → Option Link
unfolding resize_link write_line
insert memory linklist val index =
    if leb linklist.list_len linklist.last_index
    then write_line (resize_link memory linklist).1 val index
    else write_line linklist val index

-- Where `tc_calloc` of the lines fails, the node has no array.
pub create_link : LineMemory → ℕ → Link
create_link memory val = record {
  val = val;
  list = elim (memory.calloc list_size) [ none ↦ [] | some cells ↦ cells ];
  list_len = list_size;
  last_index = 0;
}

pub insert_link : List Link → Link → List Link
insert_link head node = node ∷ head

pub lookup_link : List Link → ℕ → Option ℕ
lookup_link [] val = none
lookup_link (node ∷ rest) val =
    if node.val == val
    then some 0
    else elim (lookup_link rest val) [ none ↦ none | some i ↦ some (suc i) ]

-- `insert(linklist, NULL, line_num, linklist->last_index, LINKLIST)` at the node of a place.
pub insert_at : LineMemory → ℕ → List Link → ℕ → Option (List Link)
unfolding insert
insert_at memory line_num [] place = none
insert_at memory line_num (node ∷ rest) zero = elim (insert memory node line_num node.last_index) [
  | none ↦ none
  | some node' ↦ some (node' ∷ rest)
]
insert_at memory line_num (node ∷ rest) (suc place) = elim (insert_at memory line_num rest place) [
  | none ↦ none
  | some rest' ↦ some (node ∷ rest')
]

-- `doc = create_link(docId); insert(doc, ...); insert_link(&list, doc)`, as `parse` does twice.
pub add_document : LineMemory → List Link → ℕ → ℕ → Option (List Link)
unfolding insert_link
add_document memory list doc_id line_num =
    let doc = create_link memory doc_id in
    elim (insert memory doc line_num doc.last_index) [
      | none ↦ none
      | some doc' ↦ some (insert_link list doc')
    ]

-- What `parse` does with the list of a word that it has found.
pub add_line : LineMemory → List Link → ℕ → ℕ → Option (List Link)
add_line memory list doc_id line_num = elim (lookup_link list doc_id) [
  | some place ↦ insert_at memory line_num list place
  | none ↦ add_document memory list doc_id line_num
]
