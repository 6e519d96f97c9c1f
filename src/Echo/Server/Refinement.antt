-- ===== src/Echo/Server/Refinement.antt =====
-- Each datagram, and each run, of the server against the specification by counts.
use eltex_course.Base.{
  ◌≡◌, refl, ◌∙◌, ◌≢◌, inl, inr, true, false, List, [], ◌∷◌, some, arith, ◌==◌, Bool-cases, str_eq,
}
use eltex_course.Memory.{Ptr}
use eltex_course.Echo.List.{Nodes, Clients}
use eltex_course.Echo.List.Chain.{Cells, has, IsList, set_count}
use eltex_course.Echo.List.Adding.{counted, list_add-counted}
use eltex_course.Echo.List.Killing.{list_switch_off-set_count}
use eltex_course.Echo.Server.{
  Packet, server_port, exit_text, handle_message, handle_exit, handle, serve,
}
use eltex_course.Echo.Server.Counts.{
  Counts, spec_counts, spec_reply, spec_replies, spec_run, differs, Fresh, Agrees, count_of-counted,
  count_of-off, Fresh-counted, Fresh-off,
}

-- A datagram is handled without a fault, answered as specified, and leaves a well-formed list
-- that agrees with the specified counts.
pub record Handled (m : Nodes) (l : Clients) (cs : Cells) (a : Ptr) (p : Packet) (f : Counts)
    : Type 0 where
  pub nodes : Nodes
  pub list : Clients
  pub cells : Cells
  pub result : handle m l a p ≡ some (nodes, list, spec_reply f p)
  pub is_list : IsList nodes list cells
  pub agrees : Agrees cells (spec_counts f p)
  pub fresh : (ps : List (Ptr × Packet)) → differs a ps ≡ true → Fresh cs ps → Fresh cells ps

module _ (m : Nodes) (l : Clients) (cs : Cells) (a : Ptr) (p : Packet) (f : Counts)
    (is : IsList m l cs) (ag : Agrees cs f) where
  handle_other : (p.dest == server_port) ≡ false → Handled m l cs a p f
  unfolding handle spec_reply spec_counts Agrees
  handle_other no_port = record {
    nodes = m;
    list = l;
    cells = cs;
    result = rw no_port;
    is_list = is;
    agrees = λ i q. rw no_port (ag i q);
    fresh = λ ps d h. h;
  }

  handle_off :
      (p.dest == server_port) ≡ true → str_eq p.payload exit_text ≡ true → Handled m l cs a p f
  unfolding handle handle_exit spec_reply spec_counts Agrees
  handle_off port off =
      let (g, e, is') = list_switch_off-set_count m l cs p.saddr p.source is in
      record {
        nodes = g;
        list = l;
        cells = set_count cs p.saddr p.source 0;
        result = rw (port, off, e);
        is_list = is';
        agrees = λ i q. count_of-off cs p.saddr p.source i q ∙ rw (port, off, ag i q);
        fresh = λ ps d h. Fresh-off cs p.saddr p.source ps h;
      }

  handle_said :
      a ≢ 0
      → has a cs ≡ false
      → (p.dest == server_port) ≡ true
      → str_eq p.payload exit_text ≡ false
      → Handled m l cs a p f
  unfolding handle handle_message spec_reply spec_counts Agrees
  handle_said ne out port said =
      let (g, l', e, is') = list_add-counted m l a p.saddr p.source ne cs is out in
      record {
        nodes = g;
        list = l';
        cells = counted cs a p.saddr p.source;
        result = rw (port, said, e, ag p.saddr p.source);
        is_list = is';
        agrees = λ i q.
            count_of-counted cs a p.saddr p.source i q
            ∙ ground (arith, ag p.saddr p.source, ag i q);
        fresh = λ ps d h. Fresh-counted cs a p.saddr p.source ps d h;
      }

  handle_lem : a ≢ 0 → has a cs ≡ false → Handled m l cs a p f
  handle_lem ne out = elim (Bool-cases (p.dest == server_port)) [
    | inr no_port ↦ handle_other no_port
    | inl port ↦ elim (Bool-cases (str_eq p.payload exit_text)) [
      | inl off ↦ handle_off port off
      | inr said ↦ handle_said ne out port said
    ]
  ]

pub record Served (m : Nodes) (l : Clients) (f : Counts) (ps : List (Ptr × Packet)) : Type 0 where
  pub nodes : Nodes
  pub list : Clients
  pub cells : Cells
  pub result : serve m l ps ≡ some (nodes, list, spec_replies f ps)
  pub is_list : IsList nodes list cells
  pub agrees : Agrees cells (spec_run f ps)

-- From a well-formed list that agrees with the counts `f`, and with unused addresses for the new
-- nodes, the server handles every datagram of a run without a fault, sends the replies of the
-- specification, in order, and ends with a well-formed list that agrees with the final counts.
pub serve-Served :
    (m : Nodes) (l : Clients) (cs : Cells) (f : Counts) (ps : List (Ptr × Packet))
    → IsList m l cs
    → Agrees cs f
    → Fresh cs ps
    → Served m l f ps
unfolding serve spec_replies spec_run
serve-Served m l cs f [] is ag fr = record {
  nodes = m;
  list = l;
  cells = cs;
  result = refl;
  is_list = is;
  agrees = ag;
}
serve-Served m l cs f ((a, p) ∷ ps) is ag fr =
    let h = handle_lem m l cs a p f is ag fr.0 fr.1 in
    let s =
      serve-Served h.nodes h.list h.cells (spec_counts f p) ps h.is_list h.agrees
        (h.fresh ps fr.2 fr.3) in
    record {
      nodes = s.nodes;
      list = s.list;
      cells = s.cells;
      result = rw (h.result, s.result);
      is_list = s.is_list;
      agrees = s.agrees;
    }
