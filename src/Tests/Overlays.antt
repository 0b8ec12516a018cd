-- ===== src/Tests/Overlays.antt =====
-- The theorems on page types and on the pages of the index B-tree, at concrete inputs.
use abdb.Base.{◌≡◌, ◌≢◌, ◌↔◌, arith, ok}
use abdb.PageType.{PageType, to_byte, try_from, heap_page, try_from_iff}
use abdb.Index.Leaf
use abdb.Index.Inner
use abdb.Index.Leaf.{BTreeLeafPage}
use abdb.Index.Inner.{BTreeInnerPage}
use abdb.Index.Leaf.Contents
use abdb.Index.Inner.Routing
use abdb.Tests.Pages.{left_leaf, root, left_leaf-IsValid, root-IsValid}

try_from_iff_example : (try_from 1 ≡ ok heap_page) ↔ (1 ≡ to_byte heap_page)
try_from_iff_example = try_from_iff 1 heap_page

four_is_none : (t : PageType) → 4 ≢ to_byte t
four_is_none t = ground arith

insert_entry-Inserted_example :
    Contents.Inserted left_leaf 7 (30, 1) (Leaf.insert_entry left_leaf 7 30 1)
insert_entry-Inserted_example = Contents.insert_entry-Inserted left_leaf 7 30 1 left_leaf-IsValid

find_child-child_for_example : Inner.find_child root 401 ≡ ok (Routing.child_for root 401)
find_child-child_for_example = Routing.find_child-child_for root 401 root-IsValid
