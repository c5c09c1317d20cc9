-- ===== src/Graph/Normalize.antt =====
-- core/normalize.py: names and predicates in one spelling. `str.lower` is a parameter.
use membox.Base.{String, List, [], ◌∷◌, if◌then◌else◌, str_eq}
use membox.Base.Text.{Lowering, strip, join, split}

abbrev pub predicate_canonical : List (String × String)
predicate_canonical =
    ("develop", "develops")
    ∷ ("developed", "develops")
    ∷ ("developing", "develops")
    ∷ ("creates", "develops")
    ∷ ("create", "develops")
    ∷ ("created", "develops")
    ∷ ("creating", "develops")
    ∷ ("authored", "develops")
    ∷ ("authors", "develops")
    ∷ ("wrote", "develops")
    ∷ ("writes", "develops")
    ∷ ("use", "uses")
    ∷ ("used", "uses")
    ∷ ("using", "uses")
    ∷ ("utilizes", "uses")
    ∷ ("utilize", "uses")
    ∷ ("utilized", "uses")
    ∷ ("employs", "uses")
    ∷ ("employ", "uses")
    ∷ ("build", "builds")
    ∷ ("built", "builds")
    ∷ ("building", "builds")
    ∷ ("constructs", "builds")
    ∷ ("construct", "builds")
    ∷ ("constructed", "builds")
    ∷ ("is based on", "based_on")
    ∷ ("based on", "based_on")
    ∷ ("relies on", "based_on")
    ∷ ("rely on", "based_on")
    ∷ ("relies upon", "based_on")
    ∷ ("built on", "based_on")
    ∷ ("built upon", "based_on")
    ∷ ("integrate", "integrates")
    ∷ ("integrated", "integrates")
    ∷ ("integrating", "integrates")
    ∷ ("powers", "powers")
    ∷ ("powered by", "powered_by")
    ∷ ("power", "powers")
    ∷ ("part of", "part_of")
    ∷ ("is part of", "part_of")
    ∷ ("belongs to", "part_of")
    ∷ ("belongs_to", "part_of")
    ∷ ("member of", "part_of")
    ∷ ("component of", "part_of")
    ∷ ("depends on", "depends_on")
    ∷ ("depend on", "depends_on")
    ∷ ("dependent on", "depends_on")
    ∷ ("requires", "depends_on")
    ∷ ("require", "depends_on")
    ∷ ("works at", "works_at")
    ∷ ("work at", "works_at")
    ∷ ("worked at", "works_at")
    ∷ ("employed by", "works_at")
    ∷ ("employed at", "works_at")
    ∷ ("leads", "leads")
    ∷ ("lead", "leads")
    ∷ ("led", "leads")
    ∷ ("manages", "leads")
    ∷ ("manage", "leads")
    ∷ ("managed", "leads")
    ∷ ("heads", "leads")
    ∷ ("head", "leads")
    ∷ ("开发", "develops")
    ∷ ("创建", "develops")
    ∷ ("创造", "develops")
    ∷ ("使用", "uses")
    ∷ ("用", "uses")
    ∷ ("利用", "uses")
    ∷ ("基于", "based_on")
    ∷ ("依赖", "depends_on")
    ∷ ("集成", "integrates")
    ∷ ("整合", "integrates")
    ∷ ("构建", "builds")
    ∷ ("搭建", "builds")
    ∷ ("属于", "part_of")
    ∷ ("是…的一部分", "part_of")
    ∷ ("管理", "leads")
    ∷ ("领导", "leads")
    ∷ []

-- `" ".join(name.strip().lower().split())`
unfoldable pub normalize_name : Lowering → String → String
unfolding strip join split
normalize_name lower name = join " " (split (lower (strip name)))

-- `dict.get(p, p)`
unfoldable pub canonical_in : List (String × String) → String → String
canonical_in [] p = p
canonical_in (row ∷ rows) p =
    let rest = canonical_in rows p in if str_eq row.0 p then row.1 else rest

unfoldable pub normalize_predicate : Lowering → String → String
unfolding normalize_name canonical_in
normalize_predicate lower predicate =
    canonical_in predicate_canonical (normalize_name lower predicate)
