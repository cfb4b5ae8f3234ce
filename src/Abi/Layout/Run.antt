-- ===== src/Abi/Layout/Run.antt =====
-- The parts of a successful run of `compute_layout`.
use rustcc.Prelude.{ℕ, suc, ◌≡◌, sym, some, Bool, Option, List, ok, or_panic, >>=-eq-ok}
use rustcc.Prelude.{or_panic-eq-ok, ok_inj}
use rustcc.Abi.Types.{ClassId, ClassDef}
use rustcc.Abi.Context.{CxxTypeCtx, class_of}
use rustcc.Abi.Layout.State.{RecordLayout, LayoutState, HfaKind}
use rustcc.Abi.Layout.Classify.{collect_virtual_bases, is_pod_for_layout, is_empty_class}
use rustcc.Abi.Layout.Hfa.{detect_hfa}
use rustcc.Abi.Layout.Compute.{place_all, apply_alignas, nv_size, place_virtual_bases, final_size}
use rustcc.Abi.Layout.Compute.{finish, compute_layout}

module _ (ctx : CxxTypeCtx) (fuel : ℕ) (id : ClassId) where
  pub record Run (r : RecordLayout) : Type 0 where
    pub class : ClassDef
    pub placed : LayoutState
    pub is_pod : Bool
    pub is_empty : Bool
    pub nv : ℕ
    pub vbases : List ClassId
    pub last : LayoutState
    pub size : ℕ
    pub hfa : Option HfaKind
    pub class_eq : class_of ctx id ≡ some class
    pub placed_eq : place_all ctx (compute_layout ctx fuel) fuel id class class.kind ≡ ok placed
    pub pod_eq : is_pod_for_layout ctx (suc fuel) id ≡ ok is_pod
    pub empty_eq : is_empty_class ctx (suc fuel) id ≡ ok is_empty
    pub nv_eq : nv_size is_empty is_pod (apply_alignas class.source_alignment placed) ≡ ok nv
    pub vbases_eq : collect_virtual_bases ctx (suc fuel) id ≡ ok vbases
    pub last_eq :
        place_virtual_bases
          (compute_layout ctx fuel)
          vbases
          (apply_alignas class.source_alignment placed).dsize
          (apply_alignas class.source_alignment placed)
        ≡ ok last
    pub size_eq : final_size last ≡ ok size
    pub hfa_eq : detect_hfa ctx (suc fuel) id ≡ ok hfa
    pub result : r ≡ finish (apply_alignas class.source_alignment placed) last is_pod nv size hfa

  pub compute_layout-Run : (r : RecordLayout) → compute_layout ctx (suc fuel) id ≡ ok r → Run r
  unfolding compute_layout
  compute_layout-Run r h =
      let (class, e0, h0) = >>=-eq-ok (or_panic (class_of ctx id)) _ h in
      let (placed, e1, h1) =
        >>=-eq-ok (place_all ctx (compute_layout ctx fuel) fuel id class class.kind) _ h0 in
      let n : LayoutState = apply_alignas class.source_alignment placed in
      let (pod, e2, h2) = >>=-eq-ok (is_pod_for_layout ctx (suc fuel) id) _ h1 in
      let (empty, e3, h3) = >>=-eq-ok (is_empty_class ctx (suc fuel) id) _ h2 in
      let (nv, e4, h4) = >>=-eq-ok (nv_size empty pod n) _ h3 in
      let (vbases, e5, h5) = >>=-eq-ok (collect_virtual_bases ctx (suc fuel) id) _ h4 in
      let (s, e6, h6) =
        >>=-eq-ok (place_virtual_bases (compute_layout ctx fuel) vbases n.dsize n) _ h5 in
      let (size, e7, h7) = >>=-eq-ok (final_size s) _ h6 in
      let (hfa, e8, h8) = >>=-eq-ok (detect_hfa ctx (suc fuel) id) _ h7 in
      record {
        class = class;
        placed = placed;
        is_pod = pod;
        is_empty = empty;
        nv = nv;
        vbases = vbases;
        last = s;
        size = size;
        hfa = hfa;
        class_eq = or_panic-eq-ok (class_of ctx id) e0;
        placed_eq = e1;
        pod_eq = e2;
        empty_eq = e3;
        nv_eq = e4;
        vbases_eq = e5;
        last_eq = e6;
        size_eq = e7;
        hfa_eq = e8;
        result = sym (ok_inj h8);
      }
