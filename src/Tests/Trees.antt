-- ===== src/Tests/Trees.antt =====
-- The splay tree of src/splaytree.c at a concrete tree.
use lighttpd.Base.{ℕ, ◌≡◌, refl, true}
use lighttpd.Memory.{ok}
use lighttpd.Splay.{
  Tree, leaf, node, node_size, link_right, link_left, close_left, close_right, assemble, sized,
  go_left, go_right, left_round, right_round, splay_round, splay_loop, count, splaytree_splay,
  put_root, splaytree_insert, splaytree_delete,
}
use lighttpd.Splay.Entry.{insert_entry, remove_entry}
use lighttpd.Splay.Order.{ascending, inorder}
use lighttpd.Splay.Sizes.{sizes_ok}
use lighttpd.Splay.Splits.{Parts, splaytree_splay-Parts}
use lighttpd.Splay.Update.{splaytree_insert_lem, splaytree_delete_lem}

-- The keys 2, 4 and 6, with their tenfolds as data
abbrev three : Tree ℕ
three = node (node leaf 2 20 leaf 1) 4 40 (node leaf 6 60 leaf 1) 3

three-ascending : ascending (inorder three) ≡ true
unfolding ascending inorder
three-ascending = refl

three-sizes_ok : sizes_ok three ≡ true
unfolding sizes_ok node_size
three-sizes_ok = refl

splaytree_splay_example :
    (t' : Tree ℕ) × (splaytree_splay three 5 ≡ ok t') × Parts 5 (inorder three) t'
splaytree_splay_example = splaytree_splay-Parts three 5 three-ascending

splaytree_insert_example :
    (t' : Tree ℕ) × (splaytree_insert true three 5 50 ≡ ok t')
    × (inorder t' ≡ insert_entry 5 50 (inorder three))
    × (ascending (inorder t') ≡ true)
    × (sizes_ok t' ≡ true)
splaytree_insert_example = splaytree_insert_lem three 5 50 three-ascending three-sizes_ok

splaytree_delete_example :
    (t' : Tree ℕ) × (splaytree_delete three 4 ≡ ok t')
    × (inorder t' ≡ remove_entry 4 (inorder three))
    × (ascending (inorder t') ≡ true)
    × (sizes_ok t' ≡ true)
splaytree_delete_example = splaytree_delete_lem three 4 three-ascending three-sizes_ok

insert_run :
    splaytree_insert true three 5 50
    ≡ ok (node (node (node leaf 2 20 leaf 1) 4 40 leaf 2) 5 50 (node leaf 6 60 leaf 1) 4)
unfolding splaytree_insert splaytree_splay splay_loop splay_round left_round right_round go_left
    go_right link_left link_right assemble close_left close_right sized put_root count node_size
insert_run = refl
