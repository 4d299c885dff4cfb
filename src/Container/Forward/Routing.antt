-- ===== src/Container/Forward/Routing.antt =====
-- Which service the HashSelector of wxf/container/hashSelector.go answers with.
