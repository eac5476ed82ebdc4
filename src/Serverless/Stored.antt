-- ===== src/Serverless/Stored.antt =====
-- Reading an order that the orders function has created.
